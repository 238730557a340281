-- ===== src/Caddyfile/Returns.antt =====
-- Total correctness of a reader of a Caddyfile: it ends, and a value that it returns is as it should be.
use caddy_fair_admission.Prelude.{
  ℕ, zero, suc, ◌≤◌, ◌<◌, ◌≡◌, Bool, true, false, Option, none, some, arith, Bool-cases, inl, [],
  ◌∷◌, inr, if◌then◌else◌, refl, List,
}
use Prim.Native.String.{String}
use caddy_fair_admission.GoMap.{same}
use caddy_fair_admission.Caddyfile.{
  arg_err, Dispenser, Outcome, ok, failed, spent, Reader, Failure, ◌>>=◌, loop, or_fail, text_arg,
  set_arg, set_text, switch, invalid,
}

-- What Caddy's dispenser does: it never goes back, and a token that `Next` or `NextBlock` announces
-- is a later one. `left` is the number of tokens ahead.
pub record Advances (d : Dispenser) : Type 0 where
  pub left : d.Place → ℕ
  pub next_le : (p : d.Place) → left (d.next p).1 ≤ left p
  pub next_lt : (p : d.Place) → (d.next p).0 ≡ true → left (d.next p).1 < left p
  pub next_block_le : (n : ℕ) (p : d.Place) → left (d.next_block n p).1 ≤ left p
  pub next_block_lt :
      (n : ℕ) (p : d.Place) → (d.next_block n p).0 ≡ true → left (d.next_block n p).1 < left p
  pub next_arg_le : (p : d.Place) → left (d.next_arg p).1 ≤ left p
  pub remaining_args_le : (p : d.Place) → left (d.remaining_args p).1 ≤ left p

-- The reader ended, with an error or with a value of `Q` and at most `n` tokens ahead.
pub data Returns {P A : Type 0} (left : P → ℕ) (n : ℕ) (Q : A → Type 0) : Outcome P A → Type 0 where
  returned : (a : A) (q : P) → Q a → left q ≤ n → Returns left n Q (ok a q)
  refused : (e : Failure) → Returns left n Q (failed e)

module _ {P : Type 0} {left : P → ℕ} {n : ℕ} where
  pub if-Returns :
      {A : Type 0} {Q : A → Type 0} {b : Bool} {x y : Outcome P A}
      → (b ≡ true → Returns left n Q x)
      → (b ≡ false → Returns left n Q y)
      → Returns left n Q (if b then x else y)
  if-Returns {b = true} f g = f refl
  if-Returns {b = false} f g = g refl

  pub >>=-Returns :
      {A B : Type 0} {Q : A → Type 0} {R : B → Type 0} (m : Reader P A) (f : A → Reader P B) (p : P)
      → Returns left n Q (m p)
      → ((a : A) (q : P) → Q a → left q ≤ n → Returns left n R (f a q))
      → Returns left n R ((m >>= f) p)
  >>=-Returns {A} {B} {Q} {R} m f p h k = go (m p) h
    where
      go :
          (o : Outcome P A)
          → Returns left n Q o
          → Returns left n R (elim o [ ok a q ↦ f a q | failed e ↦ failed e | spent ↦ spent ])
      go _ (returned a q h le) = k a q h le
      go _ (refused e) = refused e

  pub or_fail-Returns :
      {A : Type 0} {Q : A → Type 0} (o : Option A) (e : Failure) (p : P)
      → left p ≤ n
      → ((a : A) → o ≡ some a → Q a)
      → Returns left n Q (or_fail o e p)
  or_fail-Returns none e p le h = refused e
  or_fail-Returns (some a) e p le h = returned a p (h a refl) le

  pub weaken :
      {A : Type 0} {Q : A → Type 0} {m : ℕ} {o : Outcome P A}
      → m ≤ n
      → Returns left m Q o
      → Returns left n Q o
  weaken le (returned a q h k) = returned a q h (omega arith)
  weaken le (refused e) = refused e

  pub imply :
      {A : Type 0} {Q R : A → Type 0} {o : Outcome P A}
      → ((a : A) → Q a → R a)
      → Returns left n Q o
      → Returns left n R o
  imply f (returned a q h le) = returned a q (f a h) le
  imply f (refused e) = refused e

-- Every case of a switch returns.
pub data AllReturn {P A : Type 0} (left : P → ℕ) (n : ℕ) (Q : A → Type 0) (p : P)
    : List (String × Reader P A) → Type 0 where
  no_case : AllReturn left n Q p []
  one_case :
      (name : String) (run : Reader P A) (more : List (String × Reader P A))
      → Returns left n Q (run p)
      → AllReturn left n Q p more
      → AllReturn left n Q p ((name, run) ∷ more)

module _ {P : Type 0} (left : P → ℕ) where
  pub switch-Returns :
      {A : Type 0} {Q : A → Type 0} {n : ℕ} (v : String) (otherwise : Reader P A) (p : P)
      (cases : List (String × Reader P A))
      → AllReturn left n Q p cases
      → Returns left n Q (otherwise p)
      → Returns left n Q (switch v cases otherwise p)
  unfolding switch
  switch-Returns v otherwise p _ no_case h = h
  switch-Returns v otherwise p _ (one_case name run more first all) h =
      elim (Bool-cases (same v name)) [
        | inl e ↦ rw e first
        | inr e ↦ rw e (switch-Returns v otherwise p more all h)
      ]

  -- A loop over a step that moves on, with a body that keeps `Q` and does not go back where fewer than
  -- `bound` tokens are ahead, ends within as many rounds as there are tokens ahead, and keeps `Q`.
  pub loop-Returns :
      {S : Type 0} (Q : S → Type 0) (step : P → Bool × P) (body : S → Reader P S) (bound : ℕ)
      → ((p : P) → left (step p).1 ≤ left p)
      → ((p : P) → (step p).0 ≡ true → left (step p).1 < left p)
      → ((s : S) (p : P) → left p < bound → Q s → Returns left (left p) Q (body s p))
      → (fuel : ℕ) (s : S) (p : P) → left p < fuel
      → left p < bound
      → Q s
      → Returns left (left p) Q (loop fuel step body s p)
  unfolding loop
  loop-Returns Q step body bound le lt keep zero s p h b q = absurd (omega arith)
  loop-Returns Q step body bound le lt keep (suc fuel) s p h b q = elim (Bool-cases (step p).0) [
    | inl e ↦
        let here = (step p).1 in
        let moved = lt p e in
        rw (e, loop)
          (weaken (le p) (
            >>=-Returns (body s) _ here (keep s here (omega (arith, moved, b)) q) λ t u qt lu.
              weaken lu (
                loop-Returns Q step body bound le lt keep fuel t u (omega (arith, h, moved, lu))
                  (omega (arith, b, moved, lu)) qt)))
    | inr e ↦ rw (e, loop) (returned s (step p).1 q (le p))
  ]

module _ (d : Dispenser) (a : Advances d) where
  open a use {left, next_arg_le, remaining_args_le}

  abbrev IsAny : {A : Type 0} → A → Type 0
  IsAny x = Unit {0}

  pub text_arg-Returns : (p : d.Place) → Returns left (left p) (IsAny {A = String}) (text_arg d p)
  unfolding text_arg
  text_arg-Returns p =
      if-Returns {b = (d.next_arg p).0}
        (λ e. returned (d.val (d.next_arg p).1) (d.next_arg p).1 tt (next_arg_le p))
        (λ e. refused arg_err)

  -- The field that such a case sets has what was parsed.
  pub set_arg-Returns :
      {A S : Type 0} {Q : S → Type 0} (name : String) (parse : String → Option A) (f : A → S)
      (p : d.Place)
      → ((x : A) (t : String) → parse t ≡ some x → Q (f x))
      → Returns left (left p) Q (set_arg d name parse f p)
  unfolding set_arg
  set_arg-Returns {A} name parse f p h =
      >>=-Returns (text_arg d) _ p (text_arg-Returns p) λ t q u le.
        >>=-Returns {Q = λ (x : A). parse t ≡ some x} (or_fail (parse t) (invalid name t)) _ q
          (or_fail-Returns (parse t) (invalid name t) q le (λ x e. e))
          (λ x r e k. returned (f x) r (h x t e) k)

  pub set_text-Returns :
      {S : Type 0} {Q : S → Type 0} (f : String → S) (p : d.Place)
      → ((t : String) → Q (f t))
      → Returns left (left p) Q (set_text d f p)
  unfolding set_text
  set_text-Returns f p h =
      >>=-Returns (text_arg d) _ p (text_arg-Returns p) (λ t q u le. returned (f t) q (h t) le)
