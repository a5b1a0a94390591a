-- ===== src/Prelude/Effects.antt =====
-- Methods that change state and may throw. What was written before a throw stays written.
use Prim.Native.Nat.{ℕ}
use mathlib.Core.Path.{◌≡◌, refl, subst}
use mathlib.Core.Logic.{◌⊎◌, inl, inr}
use mathlib.Core.Bool.{Bool, true, false}
use mathlib.Core.Option.{Option, none, some}
use mathlib.Core.List.{List, [], ◌∷◌}
use pl_backend_sdk_demo.Prelude.Strings.{Text}

-- What the sources read of a thrown object; `status` is that of a Nest HttpException.
pub record Failure : Type 0 where
  pub message : Text
  pub public_reason : Option Text
  pub kyt_unauthenticated : Bool
  pub status : Option ℕ

-- An `Error`, a string, and anything else, whose `message` is then what `String` makes of it.
pub data Thrown : Type 0 where
  error : Failure → Thrown
  string : Text → Thrown
  other : Failure → Thrown

-- `new Error(message)` and `new HttpException(message, status)`.
abbrev pub plain_error : Text → Thrown
plain_error m =
    error (record { message = m; public_reason = none; kyt_unauthenticated = false; status = none })

abbrev pub http_error : ℕ → Text → Thrown
http_error code m =
    error (record {
      message = m;
      public_reason = none;
      kyt_unauthenticated = false;
      status = some code;
    })

-- `error instanceof Error ? error.message : String(error)`
unfoldable pub thrown_text : Thrown → Text
thrown_text (error f) = f.message
thrown_text (string s) = s
thrown_text (other f) = f.message

pub data Result {ℓ} (A : Type ℓ) : Type ℓ where
  ok : A → Result A
  thrown : Thrown → Result A

pub Result-cases {ℓ} :
    {A : Type ℓ} (r : Result A) → ((e : Thrown) × (r ≡ thrown e)) ⊎ ((a : A) × (r ≡ ok a))
Result-cases (thrown e) = inl (e, refl)
Result-cases (ok a) = inr (a, refl)

abbrev pub Exec : Type 0 → Type 0 → Type 0
Exec S A = S → Result A × S

module _ {S A : Type 0} where
  abbrev pub pure : A → Exec S A
  pure a s = (ok a, s)

  abbrev pub raise : Thrown → Exec S A
  raise e s = (thrown e, s)

  abbrev pub lift : Result A → Exec S A
  lift r s = (r, s)

  abbrev pub gets : (S → A) → Exec S A
  gets f s = (ok (f s), s)

  abbrev pub on_throw : (Thrown → Exec S A) → Result A × S → Result A × S
  on_throw h (ok a, s) = (ok a, s)
  on_throw h (thrown e, s) = h e s

  -- `try { m } catch (e) { h(e) }`
  abbrev pub catch : Exec S A → (Thrown → Exec S A) → Exec S A
  catch m h s = on_throw h (m s)

abbrev pub modify : {S : Type 0} → (S → S) → Exec S (Unit {0})
modify f s = (ok tt, f s)

module _ {S A B : Type 0} where
  abbrev pub continue : (A → Exec S B) → Result A × S → Result B × S
  continue f (ok a, s) = f a s
  continue f (thrown e, s) = (thrown e, s)

  infixl 10 ◌>>=◌ ◌>>◌
  abbrev pub ◌>>=◌ : Exec S A → (A → Exec S B) → Exec S B
  ◌>>=◌ m f s = continue f (m s)

  abbrev pub ◌>>◌ : Exec S A → Exec S B → Exec S B
  m >> n = m >>= λ _. n

-- `if (b) { m }`
abbrev pub when : {S : Type 0} → Bool → Exec S (Unit {0}) → Exec S (Unit {0})
when true m = m
when false m = pure tt

-- `for (const a of as) { await f(a); }`
abbrev pub for_each : {S A : Type 0} → (A → Exec S (Unit {0})) → List A → Exec S (Unit {0})
for_each f [] = pure tt
for_each f (a ∷ r) = f a >> for_each f r

-- What holds of the value and the state when a method returns, and of the state when it throws.
pub record Post {S A : Type 0} (P : A → S → Type 0) (E : Thrown → S → Type 0) (r : Result A × S)
    : Type 0 where
  pub returns : (a : A) (s : S) → r ≡ (ok a, s) → P a s
  pub throws : (e : Thrown) (s : S) → r ≡ (thrown e, s) → E e s

abbrev Cases : {S A : Type 0} → (A → S → Type 0) → (Thrown → S → Type 0) → Result A × S → Type 0
Cases P E (ok a, s) = P a s
Cases P E (thrown e, s) = E e s

abbrev pub Anyway : {S : Type 0} → Thrown → S → Type 0
Anyway e s = Unit {0}

module _ {S A : Type 0} {P : A → S → Type 0} {E : Thrown → S → Type 0} where
  pub Post-either : (r : Result A × S) → Cases P E r → Post P E r
  Post-either r h = record {
    returns = λ a s e. subst (Cases P E) e h;
    throws = λ x s e. subst (Cases P E) e h;
  }

  pub Post-pure : (a : A) (s : S) → P a s → Post P E (ok a, s)
  Post-pure a s h = Post-either (ok a, s) h

  pub Post-raise : (e : Thrown) (s : S) → E e s → Post P E (thrown e, s)
  Post-raise e s h = Post-either (thrown e, s) h

module _ {S A B : Type 0} {P : B → S → Type 0} {E : Thrown → S → Type 0} where
  -- A bind whose first part is a value or a throw.
  pub Post-lift :
      (r : Result A) (f : A → Exec S B) (s : S)
      → ((e : Thrown) → r ≡ thrown e → E e s)
      → ((a : A) → r ≡ ok a → Post P E (f a s))
      → Post P E (continue f (r, s))
  Post-lift (ok a) f s h k = k a refl
  Post-lift (thrown e) f s h k = Post-raise e s (h e refl)

  pub Post-bind :
      {Q : A → S → Type 0} (r : Result A × S) (f : A → Exec S B)
      → Post Q E r
      → ((a : A) (t : S) → Q a t → Post P E (f a t))
      → Post P E (continue f r)
  Post-bind (ok a, s) f h k = k a s (h.returns a s refl)
  Post-bind (thrown e, s) f h k = Post-raise e s (h.throws e s refl)

module _ {S A : Type 0} {P : A → S → Type 0} {E : Thrown → S → Type 0} where
  pub Post-catch :
      {D : Thrown → S → Type 0} (r : Result A × S) (h : Thrown → Exec S A)
      → Post P D r
      → ((e : Thrown) (t : S) → D e t → Post P E (h e t))
      → Post P E (on_throw h r)
  Post-catch (ok a, s) h p k = Post-pure a s (p.returns a s refl)
  Post-catch (thrown e, s) h p k = k e s (p.throws e s refl)

  -- A weaker postcondition.
  pub Post-weaken :
      {Q : A → S → Type 0} {D : Thrown → S → Type 0} {r : Result A × S}
      → Post Q D r
      → ((a : A) (s : S) → Q a s → P a s)
      → ((e : Thrown) (s : S) → D e s → E e s)
      → Post P E r
  Post-weaken p h k = record {
    returns = λ a s e. h a s (p.returns a s e);
    throws = λ x s e. k x s (p.throws x s e);
  }

-- A loop keeps what each turn keeps, however it ends.
module _ {S A : Type 0} (P : S → Type 0) (f : A → Exec S (Unit {0}))
    (keeps : (a : A) (s : S) → P s → P (f a s).1) where
  continue-keeps :
      (l : List A) (r : Result (Unit {0}) × S)
      → ((s : S) → P s → P (for_each f l s).1)
      → P r.1
      → P (continue (λ _. for_each f l) r).1
  continue-keeps l (ok _, s) rest h = rest s h
  continue-keeps l (thrown e, s) rest h = h

  pub for_each-keeps : (l : List A) (s : S) → P s → P (for_each f l s).1
  for_each-keeps [] s h = h
  for_each-keeps (a ∷ l) s h = continue-keeps l (f a s) (for_each-keeps l) (keeps a s h)

-- A method after which, however it ends, what held of the state still holds.
abbrev pub Keeps : {S A : Type 0} → (S → Type 0) → Exec S A → Type 0
Keeps P m = (s : _) → P s → P (m s).1

module _ {S A : Type 0} (P : S → Type 0) where
  pub Keeps-catch :
      (m : Exec S A) (h : Thrown → Exec S A)
      → Keeps P m
      → ((e : Thrown) → Keeps P (h e))
      → Keeps P (catch m h)
  Keeps-catch m h km kh s p = after (m s) (km s p)
    where
      after : (r : Result A × S) → P r.1 → P (on_throw h r).1
      after (ok a, t) q = q
      after (thrown e, t) q = kh e t q

  pub Keeps-Post : (m : Exec S A) → Keeps P m → (s : S) → P s → Post (λ _. P) (λ _. P) (m s)
  Keeps-Post m k s p = record {
    returns = λ a t e. subst (λ r. P r.1) e (k s p);
    throws = λ x t e. subst (λ r. P r.1) e (k s p);
  }

module _ {S A B : Type 0} (P : S → Type 0) where
  pub Keeps-bind :
      (m : Exec S A) (f : A → Exec S B) → Keeps P m → ((a : A) → Keeps P (f a)) → Keeps P (m >>= f)
  Keeps-bind m f km kf s p = after (m s) (km s p)
    where
      after : (r : Result A × S) → P r.1 → P (continue f r).1
      after (ok a, t) q = kf a t q
      after (thrown e, t) q = q
