-- ===== src/Exec.antt =====
-- Python code that mutates objects and may raise: an action takes the state and returns the
-- outcome beside the new state. What was written before a raise stays written.
-- The exception classes are those of trio/_core/_exceptions.py, `BadPacket` of trio/_dtls.py and
-- Python's own; `out_of_fuel` is none of them: the rounds given to a loop were too few.
use trio.Prelude.{◌≡◌, refl, Bool, true, false}

pub data Error : Type 0 where
  would_block cancelled closed_resource_error broken_resource_error end_of_channel : Error
  busy_resource_error runtime_error value_error key_error attribute_error assertion_error : Error
  index_error struct_error overflow_error stop_iteration bad_packet run_finished_error os_error
        out_of_fuel :
      Error

-- An `outcome.Outcome`, and what a call ends with.
pub data Result {ℓ} (A : Type ℓ) : Type ℓ where
  ok : A → Result A
  raise : Error → Result A

abbrev pub Exec {ℓ} : Type ℓ → Type ℓ → Type ℓ
Exec S A = S → Result A × S

module _ {ℓ} {S A : Type ℓ} where
  abbrev pub pure : A → Exec S A
  pure a s = (ok a, s)

  abbrev pub throw : Error → Exec S A
  throw e s = (raise e, s)

  abbrev pub gets : (S → A) → Exec S A
  gets f s = (ok (f s), s)

abbrev pub modify : {S : Type 0} → (S → S) → Exec S Unit
modify f s = (ok tt, f s)

-- `assert b`, and any other test that raises `e` where it fails.
abbrev pub ensure : {S : Type 0} → Error → Bool → Exec S Unit
ensure e true s = (ok tt, s)
ensure e false s = (raise e, s)

pub ensure-state : {S : Type 0} (e : Error) (b : Bool) (s : S) → (ensure e b s).1 ≡ s
ensure-state e true s = refl
ensure-state e false s = refl

module _ {ℓ} {S A B : Type ℓ} where
  abbrev pub continue : Result A × S → (A → Exec S B) → Result B × S
  continue (ok a, s) f = f a s
  continue (raise e, s) f = (raise e, s)

  infixl 10 ◌>>=◌ ◌>>◌
  abbrev pub ◌>>=◌ : Exec S A → (A → Exec S B) → Exec S B
  ◌>>=◌ m f s = continue (m s) f

  abbrev pub ◌>>◌ : Exec S A → Exec S B → Exec S B
  m >> n = m >>= λ _. n

  -- `try: m` with `except trio.WouldBlock: blocked` and `else: done`.
  abbrev pub branch : Result A × S → Exec S B → (A → Exec S B) → Result B × S
  branch (ok a, s) blocked done = done a s
  branch (raise would_block, s) blocked done = blocked s
  branch (raise e, s) blocked done = (raise e, s)

  abbrev pub try_nowait : Exec S A → Exec S B → (A → Exec S B) → Exec S B
  try_nowait m blocked done s = branch (m s) blocked done

-- An action on a part of the state, `get` and `put` being the field's access.
abbrev pub zoom {ℓ} : {S T A : Type ℓ} → (T → S) → (S → T → T) → Exec S A → Exec T A
zoom get put m t = let (r, s) = m (get t) in (r, put s t)

-- What holds before and after each part of a sequence holds after it, also where the first part raises.
module _ {S A B : Type 0} (P : S → Type 0) where
  pub continue_keeps :
      (r : Result A × S) (f : A → Exec S B)
      → P r.1
      → ((a : A) (u : S) → P u → P (f a u).1)
      → P (continue r f).1
  continue_keeps (ok a, s) f p q = q a s p
  continue_keeps (raise e, s) f p q = p

-- What follows a part that returns.
pub continue_ok :
    {S A B : Type 0} {a : A} (m : Result A × S) (f : A → Exec S B)
    → m.0 ≡ ok a
    → continue m f ≡ f a m.1
continue_ok m f q = rw q

-- A test that passes.
pub ensure_pass :
    {S B : Type 0} (e : Error) (b : Bool) (s : S) (f : Unit → Exec S B)
    → b ≡ true
    → continue (ensure e b s) f ≡ f tt s
ensure_pass e b s f h = rw h

-- And one that fails.
pub ensure_fail :
    {S B : Type 0} (e : Error) (b : Bool) (s : S) (f : Unit → Exec S B)
    → b ≡ false
    → continue (ensure e b s) f ≡ (raise e, s)
ensure_fail e b s f h = rw h
