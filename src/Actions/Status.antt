-- ===== src/Actions/Status.antt =====
-- The search for the status in a command result.
use cmf_watch_pro_2_os.Base.{
  ℕ, ◌+◌, ◌≤◌, ◌≡◌, refl, ap, ◌↔◌, inl, inr, true, List, [], ◌∷◌, ◌++◌, arith, length, Bool-cases,
}
use cmf_watch_pro_2_os.Protocol.Messages.{Message}
use cmf_watch_pro_2_os.Actions.{starts_with, contains, status_needle, payload_contains_status}

starts_with-split :
    (needle text : List ℕ)
    → starts_with needle text ≡ true
    → (rest : List ℕ) × (text ≡ needle ++ rest)
unfolding starts_with
starts_with-split [] text h = (text, refl)
starts_with-split (a ∷ needle) [] h = absurd (cc)
starts_with-split (a ∷ needle) (b ∷ text) h =
    let (rest, e) = starts_with-split needle text (ground arith) in (rest, ground arith)

starts_with-append : (needle rest : List ℕ) → starts_with needle (needle ++ rest) ≡ true
unfolding starts_with
starts_with-append [] rest = refl
starts_with-append (a ∷ needle) rest = ground (arith, starts_with-append needle rest)

-- The text holds the needle, with these bytes before it and after it.
abbrev pub Occurs : List ℕ → List ℕ → Type 0
Occurs needle text = (before after : List ℕ) × (text ≡ before ++ (needle ++ after))

contains-Occurs : (needle text : List ℕ) → contains needle text ≡ true → Occurs needle text
unfolding contains
contains-Occurs needle [] h = let (rest, e) = starts_with-split needle [] h in ([], rest, e)
contains-Occurs needle (b ∷ text) h = elim (Bool-cases (starts_with needle (b ∷ text))) [
  | inl here ↦ let (rest, e) = starts_with-split needle (b ∷ text) here in ([], rest, e)
  | inr later ↦
      let (before, after, e) = contains-Occurs needle text (ground arith) in
      (b ∷ before, after, ap (◌∷◌ b) e)
]

contains-append :
    (needle before after : List ℕ) → contains needle (before ++ (needle ++ after)) ≡ true
unfolding contains
contains-append [] [] [] = refl
contains-append [] [] (b ∷ after) = refl
contains-append (a ∷ needle) [] after = ground (arith, starts_with-append (a ∷ needle) after)
contains-append needle (b ∷ before) after = ground (arith, contains-append needle before after)

-- For a status of fewer than 20 bytes the test succeeds exactly when the payload holds the compact
-- text of the member, `"status":"…"` without white space, at any place whatever.
pub payload_contains_status_iff :
    (m : Message) (status : List ℕ)
    → length status + 12 ≤ 31
    → (payload_contains_status m status ≡ true) ↔ Occurs (status_needle status) m.payload
unfolding payload_contains_status
payload_contains_status_iff m status h = (
  λ e. contains-Occurs (status_needle status) m.payload (ground arith),
  λ (before, after, e). rw e (ground (arith, contains-append (status_needle status) before after)),
)
