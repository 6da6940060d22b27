-- ===== src/Protocol/Decode/Payloads.antt =====
-- What `validate_payload` asks of a payload.
use cmf_watch_pro_2_os.Base.{
  ℕ, ◌≡◌, refl, ◌↔◌, ◌⊎◌, inl, inr, Bool, true, List, [], ◌∷◌, some, arith, span_equal_iff,
  Option-cases, ok,
}
use cmf_watch_pro_2_os.Json.{Json, Token, Members, pair}
use cmf_watch_pro_2_os.Protocol.Messages.{MessageTypeEntry}
use cmf_watch_pro_2_os.Protocol.Decode.{mark, all_found, none_found, payload_loop, validate_payload}

-- The walk ends without an error.
abbrev pub Ends : Members → Type 0
Ends Members.finished = Unit {0}
Ends Members.malformed = ⊥
Ends (pair key value rest) = Ends rest

-- A pair with this key occurs.
abbrev pub HasKey : List ℕ → Members → Type 0
HasKey name Members.finished = ⊥
HasKey name Members.malformed = ⊥
HasKey name (pair key value rest) = (key ≡ name) ⊎ HasKey name rest

-- Each name was found before, or is a key of the pairs to come.
abbrev Covered : List (List ℕ) → List Bool → Members → Type 0
Covered [] found ms = Unit {0}
Covered (name ∷ names) [] ms = ⊥
Covered (name ∷ names) (f ∷ found) ms = ((f ≡ true) ⊎ HasKey name ms) × Covered names found ms

abbrev pub HasKeys : List (List ℕ) → Members → Type 0
HasKeys [] ms = Unit {0}
HasKeys (name ∷ names) ms = HasKey name ms × HasKeys names ms

-- There is one flag for each name.
abbrev Aligned : List (List ℕ) → List Bool → Type 0
Aligned [] [] = Unit {0}
Aligned (name ∷ names) (f ∷ found) = Aligned names found
Aligned _ _ = ⊥

Aligned-none : (names : List (List ℕ)) → Aligned names (none_found names)
Aligned-none [] = tt
Aligned-none (name ∷ names) = Aligned-none names

Aligned-mark :
    (key : List ℕ) (names : List (List ℕ)) (found : List Bool)
    → Aligned names found
    → Aligned names (mark key names found)
unfolding mark
Aligned-mark key [] [] a = tt
Aligned-mark key [] (f ∷ found) a = elim a [ ]
Aligned-mark key (name ∷ names) [] a = elim a [ ]
Aligned-mark key (name ∷ names) (f ∷ found) a = Aligned-mark key names found a

Covered-finished :
    (names : List (List ℕ)) (found : List Bool)
    → Aligned names found
    → (all_found found ≡ true) ↔ Covered names found Members.finished
unfolding all_found
Covered-finished [] [] a = ((λ e. tt), λ c. refl)
Covered-finished [] (f ∷ found) a = elim a [ ]
Covered-finished (name ∷ names) [] a = elim a [ ]
Covered-finished (name ∷ names) (f ∷ found) a = ground (arith, Covered-finished names found a)

Covered-mark :
    (key : List ℕ) (value : Token) (rest : Members) (names : List (List ℕ)) (found : List Bool)
    → Aligned names found
    → Covered names (mark key names found) rest ↔ Covered names found (pair key value rest)
unfolding mark
Covered-mark key value rest [] [] a = ((λ c. tt), λ c. tt)
Covered-mark key value rest [] (f ∷ found) a = elim a [ ]
Covered-mark key value rest (name ∷ names) [] a = elim a [ ]
Covered-mark key value rest (name ∷ names) (f ∷ found) a =
    ground (arith, Covered-mark key value rest names found a, span_equal_iff key name)

Covered-none :
    (names : List (List ℕ)) (ms : Members) → Covered names (none_found names) ms ↔ HasKeys names ms
Covered-none [] ms = ((λ c. tt), λ c. tt)
Covered-none (name ∷ names) ms = ground (arith, Covered-none names ms)

payload_loop_iff :
    (names : List (List ℕ)) (found : List Bool) (ms : Members)
    → Aligned names found
    → (payload_loop names found ms ≡ ok tt) ↔ (Ends ms × Covered names found ms)
unfolding payload_loop
payload_loop_iff names found Members.finished a = ground (arith, Covered-finished names found a)
payload_loop_iff names found Members.malformed a = ground arith
payload_loop_iff names found (pair key value rest) a = ground (
  arith,
  payload_loop_iff names (mark key names found) rest (Aligned-mark key names found a),
  Covered-mark key value rest names found a,
)

-- A payload is accepted exactly when the parser accepts it as an object to its end and every name
-- that its message type requires is the key of one of its members.
pub validate_payload_iff :
    (json : Json) (payload : List ℕ) (e : MessageTypeEntry)
    → (validate_payload json payload e ≡ ok tt)
      ↔ ((ms : Members) × (json.members payload ≡ some ms) × Ends ms × HasKeys e.required ms)
unfolding validate_payload
validate_payload_iff json payload e = (
  λ h. elim (Option-cases (json.members payload)) [
    | inl stop ↦ ground arith
    | inr (ms, walk) ↦ (
      ms,
      walk,
      ((payload_loop_iff e.required (none_found e.required) ms (Aligned-none e.required)).0
          (ground arith)).0,
      (Covered-none e.required ms).0
          ((payload_loop_iff e.required (none_found e.required) ms (Aligned-none e.required)).0
            (ground arith)).1,
    )
  ],
  λ (ms, walk, ends, keys).
      rw (walk, validate_payload)
        ((payload_loop_iff e.required (none_found e.required) ms (Aligned-none e.required)).1
          (ends, (Covered-none e.required ms).1 keys)),
)
