-- ===== src/Fairness/Pool.antt =====
-- A pool of shared values with reference counts: caddy.UsagePool, which is Caddy's own, as an interface
-- and what its documentation says. `references` is 0 for a key that is not in the pool.
use Prim.Native.String.{String}
use caddy_fair_admission.Prelude.{
  ℕ, zero, suc, ◌+◌, ◌-◌, ◌≡◌, refl, Option, none, some, arith, Bool-cases, inl, inr, if◌then◌else◌,
}
use caddy_fair_admission.GoMap.{same}

pub record UsagePool (V : Type 0) : Type 1 where
  pub Pool : Type 0
  pub empty : Pool
  -- `LoadOrNew(key, construct)`, where the last argument is what `construct` would return, `none` for an
  -- error; the result is the value, `none` for an error.
  pub load_or_new : Pool → String → Option V → Pool × Option V
  -- `Delete(key)`.
  pub delete : Pool → String → Pool
  pub references : Pool → String → ℕ
  pub lookup : Pool → String → Option V

abbrev pub or_new : {V : Type 0} → Option V → V → V
or_new none v = v
or_new (some old) v = old

module _ {V : Type 0} (pool : UsagePool V) where
  open pool use {Pool, load_or_new, delete, references, lookup}

  -- A key is counted once more by LoadOrNew, which gives the value that is there or else a new one, and
  -- once less by Delete; no other key is touched.
  pub record IsCounting : Type 0 where
    pub load-value :
        (p : Pool) (k : String) (v : V)
        → (load_or_new p k (some v)).1 ≡ some (or_new (lookup p k) v)
    pub load-references :
        (p : Pool) (k j : String) (v : V)
        → references (load_or_new p k (some v)).0 j ≡ references p j + (if same k j then 1 else 0)
    pub delete-references :
        (p : Pool) (k j : String)
        → references (delete p k) j ≡ references p j - (if same k j then 1 else 0)

-- A pool that counts: each key's value and count.
abbrev Table : Type 0 → Type 0
Table V = String → Option (V × ℕ)

module _ {V : Type 0} where
  abbrev count_of : Option (V × ℕ) → ℕ
  count_of none = 0
  count_of (some (v, n)) = suc n

  abbrev value_of : Option (V × ℕ) → Option V
  value_of none = none
  value_of (some (v, n)) = some v

  abbrev one_more : V → Option (V × ℕ) → Option (V × ℕ)
  one_more v none = some (v, 0)
  one_more v (some (old, n)) = some (old, suc n)

  abbrev one_less : Option (V × ℕ) → Option (V × ℕ)
  one_less none = none
  one_less (some (v, zero)) = none
  one_less (some (v, suc n)) = some (v, n)

  abbrev at : Table V → String → (Option (V × ℕ) → Option (V × ℕ)) → Table V
  at p k f j = if same k j then f (p j) else p j

  abbrev load : Table V → String → Option V → Table V × Option V
  load p k none = (p, none)
  load p k (some v) = (at p k (one_more v), some (or_new (value_of (p k)) v))

  -- The count less one is kept, so that no entry has the count 0.
  abbrev pub table : UsagePool V
  table = record {
    Pool = Table V;
    empty = λ k. none;
    load_or_new = load;
    delete = λ p k. at p k one_less;
    references = λ p k. count_of (p k);
    lookup = λ p k. value_of (p k);
  }

  count_more : (v : V) (o : Option (V × ℕ)) → count_of (one_more v o) ≡ count_of o + 1
  count_more v none = refl
  count_more v (some (w, n)) = omega arith

  count_less : (o : Option (V × ℕ)) → count_of (one_less o) ≡ count_of o - 1
  count_less none = refl
  count_less (some (w, zero)) = refl
  count_less (some (w, suc n)) = omega arith

  pub table-IsCounting : IsCounting table
  table-IsCounting = record {
    load-value = λ p k v. refl;
    load-references = λ p k j v. elim (Bool-cases (same k j)) [
      | inl e ↦ rw e (count_more v (p j))
      | inr e ↦ rw e (omega arith)
    ];
    delete-references = λ p k j. elim (Bool-cases (same k j)) [
      | inl e ↦ rw e (count_less (p j))
      | inr e ↦ rw e (omega arith)
    ];
  }
