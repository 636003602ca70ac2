-- ===== src/Query/Normalize/Result.antt =====
-- user/lib/query/normalize.c: the outcome of a function that returns 0 or -1 and leaves a message
-- in `_evlQueryErrmsg`, and what the analysis takes from elsewhere.
use evlog.Prelude.{ℕ, Bool, true, false, Option, Text, ◌≡◌, refl, if◌then◌else◌}

-- The messages of `semanticError`; `no_message` is a plain `return -1`.
pub data SemanticError : Type 0 where
  unsupported_operation unsupported_operand_type unknown_attribute invalid_regex :
      Text → SemanticError
  requires_integer requires_unsigned out_of_range unrecognized_age already_normalized :
      Text → SemanticError
  unrecognized_facility unknown_user unknown_group : Text → SemanticError
  unrecognized_value : Text → Text → SemanticError
  restricted_data data_operand host_out_of_range invalid_node_id unrecognized_host : SemanticError
  no_message : SemanticError

pub data Result {ℓ} (A : Type ℓ) : Type ℓ where
  ok : A → Result A
  err : SemanticError → Result A

infixl 5 ◌>>=◌ ◌>>◌
abbrev pub ◌>>=◌ {ℓ κ} : {A : Type ℓ} {B : Type κ} → Result A → (A → Result B) → Result B
ok a >>= f = f a
err e >>= f = err e

abbrev pub ◌>>◌ {ℓ κ} : {A : Type ℓ} {B : Type κ} → Result A → Result B → Result B
m >> k = m >>= λ _. k

-- A property of every result that is returned.
abbrev pub Ensures {ℓ κ} : {A : Type ℓ} → (A → Type κ) → Result A → Type κ
Ensures P (ok a) = P a
Ensures P (err e) = Unit

pub Ensures-bind {ℓ κ} :
    {A B : Type ℓ} (P : A → Type κ) (Q : B → Type κ) (m : Result A) (f : A → Result B)
    → Ensures P m
    → ((a : A) → P a → Ensures Q (f a))
    → Ensures Q (m >>= f)
Ensures-bind P Q (ok a) f h k = k a h
Ensures-bind P Q (err e) f h k = tt

-- The same for a step whose own result does not matter.
pub Ensures-after {ℓ κ} :
    {A B : Type ℓ} (Q : B → Type κ) (m : Result A) (f : A → Result B)
    → ((a : A) → Ensures Q (f a))
    → Ensures Q (m >>= f)
Ensures-after Q (ok a) f k = k a
Ensures-after Q (err e) f k = tt

pub Ensures-if {ℓ κ} :
    {A : Type ℓ} (P : A → Type κ) (b : Bool) (m n : Result A)
    → (b ≡ true → Ensures P m)
    → (b ≡ false → Ensures P n)
    → Ensures P (if b then m else n)
Ensures-if P true m n h k = h refl
Ensures-if P false m n h k = k refl

pub Ensures-mono {ℓ κ} :
    {A : Type ℓ} (P Q : A → Type κ) (m : Result A)
    → Ensures P m
    → ((a : A) → P a → Ensures Q (ok a))
    → Ensures Q m
Ensures-mono P Q (ok a) h k = k a h
Ensures-mono P Q (err e) h k = tt

-- Regular expressions, the users and groups of the system, the nodes of the log
-- (`_evlGetNodeId`), the facility registry and `evl_gen_event_type_v2`.
pub record NormEnv : Type 0 where
  pub regcomp : Text → Bool
  pub getpwnam : Text → Option ℕ
  pub getgrnam : Text → Option ℕ
  pub get_node_id : Text → Option ℕ
  pub facility_code : Text → Option ℕ
  pub gen_event_type : Text → ℕ
