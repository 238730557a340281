-- ===== src/Caddyfile.antt =====
-- Reading a block of a Caddyfile. The token dispenser is Caddy's own (caddyfile.Dispenser), so it is an
-- interface here: its state, and the calls that the two UnmarshalCaddyfile methods make. A loop
-- `for d.NextBlock(n)` takes fuel; Caddyfile/Returns.antt has the rule that enough fuel is given when
-- the dispenser moves on.
pub mod Returns
pub mod Tokens
use Prim.Native.String.{String, ◌++◌}
use caddy_fair_admission.Prelude.{
  ℕ, zero, suc, Bool, true, false, Option, none, some, List, [], ◌∷◌, if◌then◌else◌,
}
use caddy_fair_admission.GoMap.{same}

pub record Dispenser : Type 1 where
  pub Place : Type 0
  pub next : Place → Bool × Place
  pub next_block : ℕ → Place → Bool × Place
  pub next_arg : Place → Bool × Place
  pub val : Place → String
  pub remaining_args : Place → List String × Place

-- d.ArgErr(), and d.Errf or fmt.Errorf with its format and the texts that it is given; a number or an
-- error among them is left out.
pub data Failure : Type 0 where
  arg_err : Failure
  errf : String → List String → Failure

-- What a reader returns, and where the dispenser stands then; `spent` says that the fuel ran out.
pub data Outcome (P A : Type 0) : Type 0 where
  ok : A → P → Outcome P A
  failed : Failure → Outcome P A
  spent : Outcome P A

abbrev pub Reader : Type 0 → Type 0 → Type 0
Reader P A = P → Outcome P A

module _ {P : Type 0} where
  infixl 5 ◌>>=◌ ◌>>◌
  abbrev pub ◌>>=◌ : {A B : Type 0} → Reader P A → (A → Reader P B) → Reader P B
  ◌>>=◌ m f p = elim (m p) [ ok a q ↦ f a q | failed e ↦ failed e | spent ↦ spent ]

  abbrev pub ◌>>◌ : {A B : Type 0} → Reader P A → Reader P B → Reader P B
  m >> k = m >>= λ _. k

  abbrev pub pure : {A : Type 0} → A → Reader P A
  pure a p = ok a p

  abbrev pub fail : {A : Type 0} → Failure → Reader P A
  fail e p = failed e

  abbrev pub or_fail : {A : Type 0} → Option A → Failure → Reader P A
  or_fail none e = fail e
  or_fail (some a) e = pure a

  -- `for step() { s = body(s) }`.
  unfoldable pub loop : {S : Type 0} → ℕ → (P → Bool × P) → (S → Reader P S) → S → Reader P S
  loop zero step body s p = spent
  loop (suc fuel) step body s p = elim (step p).0 [
    | true ↦ (body s >>= λ t. loop fuel step body t) (step p).1
    | false ↦ ok s (step p).1
  ]

-- An error of a value that does not parse.
abbrev pub invalid : String → String → Failure
invalid name text = errf ("invalid " ++ (name ++ " %q: %v")) (text ∷ [])

-- `switch v { case name: run ... default: otherwise }`.
unfoldable pub switch :
    {P A : Type 0} → String → List (String × Reader P A) → Reader P A → Reader P A
switch v [] otherwise = otherwise
switch v ((name, run) ∷ more) otherwise =
    let rest = switch v more otherwise in if same v name then run else rest

module _ (d : Dispenser) where
  -- `if !d.NextArg() { return d.ArgErr() }`, and then d.Val().
  unfoldable pub text_arg : Reader d.Place String
  text_arg p =
      if (d.next_arg p).0 then ok (d.val (d.next_arg p).1) (d.next_arg p).1 else failed arg_err

  -- A case `name <value>` of a switch, whose argument is read by `parse` and stored by `f`.
  unfoldable pub set_arg :
      {A S : Type 0} → String → (String → Option A) → (A → S) → Reader d.Place S
  unfolding text_arg
  set_arg name parse f = do
    text ← text_arg
    x ← or_fail (parse text) (invalid name text)
    pure (f x)

  -- The same with an argument that is taken as it is.
  unfoldable pub set_text : {S : Type 0} → (String → S) → Reader d.Place S
  unfolding text_arg
  set_text f = text_arg >>= λ t. pure (f t)

  abbrev pub rest_args : Reader d.Place (List String)
  rest_args p = ok (d.remaining_args p).0 (d.remaining_args p).1
