-- ===== src/Errors.antt =====
-- The exceptions of errors.py and telecom_conversations/errors.py as values. A body that may raise
-- returns a `Result`, and an uncaught raise ends the `do` block that it stands in.
use plataforma_saa_s_de_auto.Prelude.{
  ◌≡◌, refl, ◌⊎◌, inl, inr, Bool, true, false, String, List, [], ◌∷◌, All,
}

-- One constructor for each class, with the message.
pub data ApplicationError : Type 0 where
  validation_error : String → ApplicationError
  conflict_error : String → ApplicationError
  forbidden_error : String → ApplicationError
  invalid_state_transition_error : String → ApplicationError
  permanent_error : String → ApplicationError
  infrastructure_error : String → ApplicationError
  concurrency_conflict_error : String → ApplicationError
  outbox_publication_error : String → ApplicationError
  idempotency_conflict_error : String → ApplicationError
  integrity_error : String → ApplicationError
  key_error : String → ApplicationError
  index_error : String → ApplicationError
  extraction_invalid_response_error : String → ApplicationError

pub data Result {ℓ} (A : Type ℓ) : Type ℓ where
  ok : A → Result A
  err : ApplicationError → Result A

-- `if condition: raise error`
abbrev pub raise_if : Bool → ApplicationError → Result (Unit {0})
raise_if true e = err e
raise_if false e = ok tt

infixl 5 ◌>>=◌ ◌>>◌
abbrev pub ◌>>◌ {ℓ} : {B : Type ℓ} → Result (Unit {0}) → Result B → Result B
err raised >> second = err raised
ok done >> second = second

-- A raise skips what follows.
abbrev pub ◌>>=◌ {ℓ κ} : {A : Type ℓ} {B : Type κ} → Result A → (A → Result B) → Result B
err raised >>= next = err raised
ok value >>= next = next value

-- A loop whose body only raises.
unfoldable pub for_each {ℓ} : {A : Type ℓ} → (A → Result (Unit {0})) → List A → Result (Unit {0})
for_each body [] = ok tt
for_each body (x ∷ xs) = body x >> for_each body xs

pub raise_if-ok : {t : Unit {0}} (c : Bool) (e : ApplicationError) → raise_if c e ≡ ok t → c ≡ false
raise_if-ok true e h = cc
raise_if-ok false e h = refl

pub raise_if-false : (c : Bool) (e : ApplicationError) → c ≡ false → raise_if c e ≡ ok tt
raise_if-false c e h = rw h

-- A guard that passes says that its condition is false, and leaves the rest.
pub raise_if->>-ok :
    {B : Type 0} (c : Bool) (e : ApplicationError) (k : Result B) {b : B}
    → (raise_if c e >> k) ≡ ok b
    → (c ≡ false) × (k ≡ ok b)
raise_if->>-ok true e k h = cc
raise_if->>-ok false e k h = (refl, h)

pub >>-ok :
    {B : Type 0} (m : Result (Unit {0})) (k : Result B) {b : B}
    → (m >> k) ≡ ok b
    → (m ≡ ok tt) × (k ≡ ok b)
>>-ok (ok t) k h = (refl, h)
>>-ok (err e) k h = cc

pub >>=-ok :
    {A B : Type 0} (first : Result A) (next : A → Result B) {result : B}
    → (first >>= next) ≡ ok result
    → (value : A) × (first ≡ ok value) × (next value ≡ ok result)
>>=-ok (err raised) next h = cc
>>=-ok (ok value) next h = (value, refl, h)

pub for_each-ok {ℓ} :
    {A : Type ℓ} (body : A → Result (Unit {0})) (xs : List A)
    → for_each body xs ≡ ok tt
    → All (λ x. body x ≡ ok tt) xs
unfolding for_each
for_each-ok body [] h = tt
for_each-ok body (x ∷ xs) h =
    let (head_ok, rest) = >>-ok (body x) (for_each body xs) h in (head_ok, for_each-ok body xs rest)

pub ok-for_each {ℓ} :
    {A : Type ℓ} (body : A → Result (Unit {0})) (xs : List A)
    → All (λ x. body x ≡ ok tt) xs
    → for_each body xs ≡ ok tt
unfolding for_each
ok-for_each body [] h = refl
ok-for_each body (x ∷ xs) h = rw h.0 (ok-for_each body xs h.1)

pub Result-cases {ℓ} :
    {A : Type ℓ} (m : Result A) → ((a : A) × (m ≡ ok a)) ⊎ ((e : ApplicationError) × (m ≡ err e))
Result-cases (ok a) = inl (a, refl)
Result-cases (err e) = inr (e, refl)

-- What the caller holds after an attempt: the new value, or the old one after a raise.
abbrev pub keep_or {ℓ} : {A : Type ℓ} → A → Result A → A
keep_or s (ok t) = t
keep_or s (err e) = s
