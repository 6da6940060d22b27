-- ===== src/Protocol/Framing/Stream/Frames.antt =====
-- A stream is the sequence of its frames.
use cmf_watch_pro_2_os.Base.{
  ℕ, ◌≤◌, ◌≡◌, refl, sym, ap, ◌∙◌, ◌≢◌, inl, inr, Bool, true, false, List, [], ◌∷◌, ◌++◌, arith,
  ◌==◌, if◌then◌else◌, length, Result-cases, Bool-cases, ok, err,
}
use cmf_watch_pro_2_os.Base.Int.{ℤ, pos, is_neg}
use cmf_watch_pro_2_os.Json.{Json}
use cmf_watch_pro_2_os.Protocol.Messages.{Message}
use cmf_watch_pro_2_os.Protocol.Decode.{decode, max_frame_size}
use cmf_watch_pro_2_os.Protocol.Framing.{
  Decoder, empty_decoder, error_code, strip_return, Round, goes_on, returns, deliver, push_byte,
  push,
}
use cmf_watch_pro_2_os.Protocol.Framing.Stream.{
  OneLine, Round-cases, push_on, push_off, deliver-Delivered, push_line,
}

-- A frame as it is sent: its text, and whether a carriage return stands before the newline.
pub record Frame : Type 0 where
  pub text : List ℕ
  pub returned : Bool

abbrev pub line_of : Frame → List ℕ
line_of frame = if frame.returned then frame.text ++ 13 ∷ [] else frame.text

abbrev pub stream_of : List Frame → List ℕ
stream_of [] = []
stream_of (frame ∷ frames) = line_of frame ++ 10 ∷ stream_of frames

-- The last byte of a text, or this one.
abbrev pub last_of : ℕ → List ℕ → ℕ
last_of last [] = last
last_of last (b ∷ text) = last_of b text

-- A text that is sent without a carriage return does not end in one.
abbrev pub Unreturned : Bool → List ℕ → Type 0
Unreturned true text = Unit
Unreturned false text = last_of 0 text ≢ 13

-- No text has a newline, and each line fits the buffer with its carriage return.
abbrev pub AllFit : List Frame → Type 0
AllFit [] = Unit
AllFit (frame ∷ frames) =
    OneLine (line_of frame)
    × (length (line_of frame) ≤ max_frame_size)
    × Unreturned frame.returned frame.text
    × AllFit frames

strip_return-append : (text : List ℕ) → strip_return (text ++ 13 ∷ []) ≡ text
unfolding strip_return
strip_return-append [] = refl
strip_return-append (b ∷ []) = refl
strip_return-append (b ∷ c ∷ text) = ap (◌∷◌ b) (strip_return-append (c ∷ text))

strip_return-other : (last : ℕ) (text : List ℕ) → last_of last text ≢ 13 → strip_return text ≡ text
unfolding strip_return
strip_return-other last [] h = refl
strip_return-other last (b ∷ []) h = elim (Bool-cases (b == 13)) [
  | inl e ↦ absurd (h (ground (arith, e)))
  | inr e ↦ rw (e) refl
]
strip_return-other last (b ∷ c ∷ text) h = ap (◌∷◌ b) (strip_return-other b (c ∷ text) h)

strip_return-line :
    (returned : Bool) (text : List ℕ)
    → Unreturned returned text
    → strip_return (line_of (record { text = text; returned = returned })) ≡ text
strip_return-line true text h = strip_return-append text
strip_return-line false text h = strip_return-other 0 text h

module _ {S : Type 0} (json : Json) (handler : Message → S → ℤ × S) where
  -- A frame of this text, before what the rest comes to: an empty one is passed over, and one that is not
  -- valid or whose handler fails is the last one.
  abbrev pub served : List ℕ → S → (S → ℤ × Decoder × S) → ℤ × Decoder × S
  served [] s rest = rest s
  served (b ∷ text) s rest = elim (decode json (b ∷ text)) [
    | err e ↦ (error_code e, empty_decoder, s)
    | ok m ↦
        (let (result, s') = handler m s in
          if is_neg result then (result, empty_decoder, s') else rest s')
  ]

  -- What the frames come to, one after the other.
  abbrev pub serve : List Frame → S → ℤ × Decoder × S
  serve [] s = (pos 0, empty_decoder, s)
  serve (frame ∷ frames) s = served frame.text s (serve frames)

  abbrev after : Round S → (S → ℤ × Decoder × S) → ℤ × Decoder × S
  after (goes_on d s) rest = rest s
  after (returns result d s) rest = (result, d, s)

  served-deliver :
      (text : List ℕ) (s : S) (rest : S → ℤ × Decoder × S)
      → served text s rest ≡ after (deliver json handler text s) rest
  unfolding deliver
  served-deliver [] s rest = refl
  served-deliver (b ∷ text) s rest =
      let full : (length (b ∷ text) == 0) ≡ false = ground arith in
      elim (Result-cases (decode json (b ∷ text))) [
        | inr (x, d) ↦ rw (full, d, served) refl
        | inl (m, d) ↦ elim (Bool-cases (is_neg (handler m s).0)) [
          | inl e ↦ rw (full, d, served, e) refl
          | inr e ↦ rw (full, d, served, e) refl
        ]
      ]

  -- A newline after these bytes.
  push_newline :
      (line bytes : List ℕ) (s : S)
      → push json handler (record { bytes = line }) (10 ∷ bytes) s
        ≡ after
            (deliver json handler (strip_return line) s)
            (λ s'. push json handler empty_decoder bytes s')
  push_newline line bytes s =
      elim (Round-cases json handler (deliver json handler (strip_return line) s)) [
        | inl (d, s', e) ↦
            let clean : d ≡ empty_decoder =
              rw e at (deliver-Delivered json handler (strip_return line) s) in
            push_on json handler (record { bytes = line }) 10 bytes s {d' = d} {s' = s'}
              (unfold push_byte in e)
            ∙ rw (e, clean) refl
        | inr (result, d, s', e) ↦
            push_off json handler (record { bytes = line }) 10 bytes s {result = result} {d' = d}
              {s' = s'} (unfold push_byte in e)
            ∙ rw (e) refl
      ]

  after_cong :
      (r : Round S) (f g : S → ℤ × Decoder × S) → ((s : S) → f s ≡ g s) → after r f ≡ after r g
  after_cong (goes_on d s) f g h = h s
  after_cong (returns result d s) f g h = refl

  -- A stream of frames, each with or without a carriage return and ended by a newline, that fit the
  -- buffer: the text of each, without the carriage return, is decoded and handled in order, until the
  -- first that is not valid or whose handler fails, with the error then. An empty frame is passed over.
  pub push-stream_of :
      (frames : List Frame) (s : S)
      → AllFit frames
      → push json handler empty_decoder (stream_of frames) s ≡ serve frames s
  unfolding push
  push-stream_of [] s h = refl
  push-stream_of (frame ∷ frames) s h =
      let line = line_of frame in
      let bytes = stream_of frames in
      push_line json handler [] line (10 ∷ bytes) s h.0 (omega (arith, h.1))
      ∙ push_newline line bytes s
      ∙ ap (λ t. after (deliver json handler t s) (λ s'. push json handler empty_decoder bytes s'))
          (strip_return-line frame.returned frame.text h.2)
      ∙ after_cong (deliver json handler frame.text s)
          (λ s'. push json handler empty_decoder bytes s') (serve frames)
          (λ s'. push-stream_of frames s' h.3)
      ∙ sym (served-deliver frame.text s (serve frames))
