-- ===== src/Transport/Sending/Unchanged.antt =====
-- Sending changes neither the socket nor what the client owns.
use cmf_watch_pro_2_os.Base.{
  ℕ, ◌≡◌, refl, ◌∙◌, inl, inr, Bool, List, Option, none, some, Bool-cases, Result, ok, err, Errno,
}
use cmf_watch_pro_2_os.Transport.Frames.{
  fits, hello_frame, unsupported_frame, sync_frame, music_frame,
}
use cmf_watch_pro_2_os.Transport.Link.{Network, System}
use cmf_watch_pro_2_os.Transport.Sending.{
  count_message, send_over, send_bytes, send_line, request_over, greeted, identified, music_over,
  request_sync, send_bootstrap, send_unsupported_result, send_music_action,
}

-- Neither the client's data nor the socket has changed.
pub record Same {A W : Type 0} (sys out : System A W) : Type 0 where
  pub app : out.app ≡ sys.app
  pub socket_fd : out.link.socket_fd ≡ sys.link.socket_fd

pub same : {A W : Type 0} {sys : System A W} → Same sys sys
same = record { app = refl; socket_fd = refl }

Same-trans : {A W : Type 0} {r s t : System A W} → Same r s → Same s t → Same r t
Same-trans p q = record { app = q.app ∙ p.app; socket_fd = q.socket_fd ∙ p.socket_fd }

module _ {A W : Type 0} (net : Network W) where
  send_over-Same :
      (o : Option ℕ) (text : List ℕ) (sys : System A W) → Same sys (send_over net o text sys).1
  send_over-Same none text sys = same
  send_over-Same (some fd) text sys = record { app = refl; socket_fd = refl }

  send_line-Same :
      (capacity : ℕ) (line : ℕ → List ℕ) (sys : System A W)
      → Same sys (send_line net capacity line sys).1
  unfolding send_bytes
  send_line-Same capacity line sys =
      elim (Bool-cases (fits capacity (line sys.link.next_message_id))) [
        | inl b ↦
            let p =
              send_over-Same sys.link.socket_fd (line sys.link.next_message_id)
                (count_message sys) in
            rw (b) (record { app = p.app; socket_fd = p.socket_fd })
        | inr b ↦ rw (b) (record { app = refl; socket_fd = refl })
      ]

  request_over-Same :
      (o : Option ℕ) (revision : ℕ) (sys : System A W)
      → Same sys (request_over net o revision sys).1
  unfolding request_over
  request_over-Same none revision sys = same
  request_over-Same (some fd) revision sys = send_line-Same 192 (λ id. sync_frame id revision) sys

  pub request_sync-Same :
      (revision : ℕ) (sys : System A W) → Same sys (request_sync net revision sys).1
  unfolding request_sync
  request_sync-Same revision sys = request_over-Same sys.link.socket_fd revision sys

  greeted-Same :
      (sys : System A W) (sent : Result Errno (Unit {0}) × System A W)
      → Same sys sent.1
      → Same sys (greeted net sent).1
  unfolding greeted
  greeted-Same sys (err e, out) p = p
  greeted-Same sys (ok x, out) p = Same-trans p (request_sync-Same 0 out)

  pub send_bootstrap-Same : (sys : System A W) → Same sys (send_bootstrap net sys).1
  unfolding send_bootstrap
  send_bootstrap-Same sys =
      greeted-Same sys (send_line net 512 (λ id. hello_frame id sys.link.session_id) sys)
        (send_line-Same 512 (λ id. hello_frame id sys.link.session_id) sys)

  pub send_unsupported_result-Same :
      (reply_to : ℕ) (sys : System A W) → Same sys (send_unsupported_result net reply_to sys).1
  unfolding send_unsupported_result
  send_unsupported_result-Same reply_to sys =
      send_line-Same 256 (λ id. unsupported_frame id reply_to) sys

  identified-Same :
      (id : ℕ) (sys : System A W) (sent : Result Errno (Unit {0}) × System A W)
      → Same sys sent.1
      → Same sys (identified net id sent).1
  identified-Same id sys (err e, out) p = p
  identified-Same id sys (ok x, out) p = p

  music_over-Same :
      (o : Option ℕ) (playing : Bool) (sys : System A W) → Same sys (music_over net o playing sys).1
  unfolding music_over
  music_over-Same none playing sys = same
  music_over-Same (some fd) playing sys =
      identified-Same sys.link.next_message_id sys
        (send_line net 256 (λ id. music_frame id playing) sys)
        (send_line-Same 256 (λ id. music_frame id playing) sys)

  pub send_music_action-Same :
      (playing : Bool) (sys : System A W) → Same sys (send_music_action net playing sys).1
  unfolding send_music_action
  send_music_action-Same playing sys = music_over-Same sys.link.socket_fd playing sys
