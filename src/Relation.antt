-- ===== src/Relation.antt =====
-- The relation service (internal/relation): error codes, and how a call on the database ends.
pub mod Friend
pub mod Group
use yim.Base.{ℕ, Bool, true, false, ◌≡◌, refl, ◌⊎◌, inl, inr}

abbrev pub code_internal : ℕ
code_internal = 1

abbrev pub code_already_friends : ℕ
code_already_friends = 20

abbrev pub code_request_invalid : ℕ
code_request_invalid = 21

abbrev pub code_not_friends : ℕ
code_not_friends = 22

abbrev pub code_not_owner : ℕ
code_not_owner = 23

abbrev pub code_not_member : ℕ
code_not_member = 25

abbrev pub code_request_handled : ℕ
code_request_handled = 26

-- A value, or the code of a business error. The text of an error is not modelled.
pub data Result {ℓ} (A : Type ℓ) : Type ℓ where
  ok : A → Result A
  err : ℕ → Result A

infixl 5 ◌>>=◌ ◌>>◌
abbrev pub ◌>>=◌ {ℓ ℓ2} : {A : Type ℓ} {B : Type ℓ2} → Result A → (A → Result B) → Result B
ok value >>= next = next value
err code >>= next = err code

abbrev pub ◌>>◌ {ℓ} : {A : Type ℓ} → Result (Unit {0}) → Result A → Result A
checked >> rest = checked >>= λ _. rest

-- `if !test { return code }`.
abbrev pub guard : Bool → ℕ → Result (Unit {0})
guard true code = ok tt
guard false code = err code

-- A statement that the database may refuse: `if err != nil { return code }`.
abbrev pub exec : Bool → ℕ → Result (Unit {0})
exec true code = err code
exec false code = ok tt

pub Result-cases {ℓ} :
    {A : Type ℓ} (r : Result A) → ((a : A) × (r ≡ ok a)) ⊎ ((code : ℕ) × (r ≡ err code))
Result-cases (ok a) = inl (a, refl)
Result-cases (err code) = inr (code, refl)
