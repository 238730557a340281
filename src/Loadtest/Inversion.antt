-- ===== src/Loadtest/Inversion.antt =====
-- DetectInversion of loadtest/report.go.
use mathlib.Core.List.{Memᴰ, append_assoc}
use mathlib.Core.List.Memᴰ
use caddy_fair_admission.Prelude.{
  ◌<◌, ◌≡◌, ◌↔◌, refl, sym, subst, ◌∙◌, true, false, List, [], ◌∷◌, ◌++◌, ◌⊎◌, arith, Bool-cases,
  inl, inr,
}
use caddy_fair_admission.Prelude.Int.{pos}
use caddy_fair_admission.Float.{Float64, IsOrdered}
use caddy_fair_admission.Loadtest.{
  LevelResult, InversionReport, no_inversion, higher, find_peak, drop_of, drops, find_drop,
  detect_inversion,
}

module _ (float : Float64) where
  abbrev Above : InversionReport float → LevelResult float → Type 0
  Above peak r = float.lt peak.peak_throughput_rps r.throughput_rps ≡ false

  module _ (laws : IsOrdered float) where
    irreflexive : (x : float.F) → float.lt x x ≡ false
    irreflexive x = elim (Bool-cases (float.lt x x)) [ inl e ↦ laws.asym x x e | inr e ↦ e ]

    -- A higher peak is above what the lower one was.
    raise : (x y z : float.F) → float.lt x y ≡ true → float.lt x z ≡ false → float.lt y z ≡ false
    raise x y z h g = elim (Bool-cases (float.lt y z)) [
      | inl e ↦ absurd (ground (arith, laws.lt_trans x y z h e))
      | inr e ↦ e
    ]

    find_peak-Above :
        (results : List (LevelResult float)) (peak : InversionReport float) (r : LevelResult float)
        → Above peak r
        → Above (find_peak float results peak) r
    unfolding find_peak
    find_peak-Above [] peak r h = h
    find_peak-Above (x ∷ results) peak r h =
        find_peak-Above results (higher float peak x) r
          (elim (Bool-cases (float.lt peak.peak_throughput_rps x.throughput_rps)) [
            | inl e ↦ rw e (raise _ _ _ e h)
            | inr e ↦ rw e h
          ])

    find_peak-highest :
        (results : List (LevelResult float)) (peak : InversionReport float) (r : LevelResult float)
        → Memᴰ r results
        → Above (find_peak float results peak) r
    unfolding find_peak
    find_peak-highest [] peak r m = absurd (Memᴰ.not-nil m)
    find_peak-highest (x ∷ results) peak r m = elim (Memᴰ.cases_cons m) [
      | inl same ↦ find_peak-Above results (higher float peak x) r (
          subst (λ y. Above (higher float peak x) y) (sym same)
            (elim (Bool-cases (float.lt peak.peak_throughput_rps x.throughput_rps)) [
              | inl e ↦ rw e (irreflexive _)
              | inr e ↦ rw e e
            ]))
      | inr later ↦ find_peak-highest results (higher float peak x) r later
    ]

  -- The peak's throughput and concurrency are those of one level, or there is no peak.
  abbrev Located : List (LevelResult float) → InversionReport float → Type 0
  Located results peak =
      ((peak.peak_throughput_rps ≡ float.of_int (pos 0)) × (peak.peak_concurrency ≡ 0))
      ⊎ ((r : LevelResult float) × Memᴰ r results
          × (peak.peak_throughput_rps ≡ r.throughput_rps)
          × (peak.peak_concurrency ≡ r.concurrency))

  find_peak-Located :
      (seen results all : List (LevelResult float)) (peak : InversionReport float)
      → all ≡ seen ++ results
      → Located all peak
      → Located all (find_peak float results peak)
  unfolding find_peak
  find_peak-Located seen [] all peak split h = h
  find_peak-Located seen (x ∷ results) all peak split h =
      find_peak-Located (seen ++ x ∷ []) results all (higher float peak x)
        (split ∙ sym (append_assoc seen (x ∷ []) results))
        (elim (Bool-cases (float.lt peak.peak_throughput_rps x.throughput_rps)) [
          | inl e ↦ rw e (
              inr (
                x,
                subst (λ l. Memᴰ x l) (sym split) (Memᴰ.append_right seen (Memᴰ.head refl)),
                refl,
                refl,
              ))
          | inr e ↦ rw e h
        ])

  find_peak-inverted :
      (results : List (LevelResult float)) (peak : InversionReport float)
      → (find_peak float results peak).inverted ≡ peak.inverted
  unfolding find_peak
  find_peak-inverted [] peak = refl
  find_peak-inverted (x ∷ results) peak =
      find_peak-inverted results (higher float peak x)
      ∙ elim (Bool-cases (float.lt peak.peak_throughput_rps x.throughput_rps)) [
        | inl e ↦ rw e refl
        | inr e ↦ rw e refl
      ]

  find_drop-same :
      (peak : InversionReport float) (t : float.F) (results : List (LevelResult float))
      → ((find_drop float peak t results).peak_throughput_rps ≡ peak.peak_throughput_rps)
        × ((find_drop float peak t results).peak_concurrency ≡ peak.peak_concurrency)
  unfolding find_drop
  find_drop-same peak t [] = (refl, refl)
  find_drop-same peak t (x ∷ results) = elim (Bool-cases (drops float peak t x)) [
    | inl e ↦ rw e (refl, refl)
    | inr e ↦ rw e (find_drop-same peak t results)
  ]

  abbrev Dropped : InversionReport float → float.F → List (LevelResult float) → Type 0
  Dropped peak t results = (r : LevelResult float) × Memᴰ r results × (drops float peak t r ≡ true)

  find_drop-finds :
      (peak : InversionReport float) (t : float.F) (results : List (LevelResult float))
      → peak.inverted ≡ false
      → ((find_drop float peak t results).inverted ≡ true) ↔ Dropped peak t results
  unfolding find_drop
  find_drop-finds peak t [] h = (λ e. absurd (ground arith), λ (r, m, d). absurd (Memᴰ.not-nil m))
  find_drop-finds peak t (x ∷ results) h =
      let rest = find_drop-finds peak t results h in
      elim (Bool-cases (drops float peak t x)) [
        | inl e ↦ rw e (λ z. (x, Memᴰ.head refl, e), λ z. refl)
        | inr e ↦ rw e (
          λ z. let (r, m, d) = rest.0 z in (r, Memᴰ.tail m, d),
          λ (r, m, d). rest.1 (elim (Memᴰ.cases_cons m) [
            | inl same ↦
                let here : drops float peak t x ≡ true =
                  subst (λ y. drops float peak t y ≡ true) same d in
                absurd (ground arith)
            | inr later ↦ (r, later, d)
          ]),
        )
      ]

  drops_lem :
      (peak : InversionReport float) (t : float.F) (r : LevelResult float)
      → (drops float peak t r ≡ true)
        ↔ ((peak.peak_concurrency < r.concurrency) × (float.le t (drop_of float peak r) ≡ true))
  unfolding drops
  drops_lem peak t r = (λ h. ground arith, λ h. ground arith)

  -- Numbers ordered as IEEE 754 has it, no level has a higher throughput than the peak that is
  -- reported, whose throughput and concurrency are those of one level, or both zero. An inversion
  -- is reported exactly if the peak is not zero and the fall from it, as a share of it, of some
  -- level with more concurrency reaches the threshold.
  pub detect_inversion_finds :
      (laws : IsOrdered float) (results : List (LevelResult float)) (drop_threshold : float.F)
      → let report = detect_inversion float results drop_threshold in
        let peak = report.peak_throughput_rps in
        ((r : LevelResult float) → Memᴰ r results → float.lt peak r.throughput_rps ≡ false)
        × (((peak ≡ float.of_int (pos 0)) × (report.peak_concurrency ≡ 0))
            ⊎ ((r : LevelResult float) × Memᴰ r results
                × (peak ≡ r.throughput_rps)
                × (report.peak_concurrency ≡ r.concurrency)))
        × ((report.inverted ≡ true) ↔ (
            (float.eq peak (float.of_int (pos 0)) ≡ false)
            × ((r : LevelResult float) × Memᴰ r results
                × (report.peak_concurrency < r.concurrency)
                × (float.le drop_threshold (float.div (float.sub peak r.throughput_rps) peak)
                    ≡ true))))
  unfolding detect_inversion
  detect_inversion_finds laws results t =
      elim (Bool-cases (float.eq peak.peak_throughput_rps (float.of_int (pos 0)))) [
        | inl e ↦ rw e (
          find_peak-highest laws results (no_inversion float),
          located,
          (λ z. absurd (ground (arith, quiet)), λ z. absurd (ground (arith, z.0))),
        )
        | inr e ↦
            rw (e, (find_drop-same peak t results).0, (find_drop-same peak t results).1)
              (
                find_peak-highest laws results (no_inversion float),
                located,
                (
                  λ z.
                      let (r, m, d) = (find_drop-finds peak t results quiet).0 z in
                      let (more, below) = (drops_lem peak t r).0 d in (e, (r, m, more, below)),
                  λ (n, (r, m, c, d)).
                      (find_drop-finds peak t results quiet).1
                        (r, m, (drops_lem peak t r).1 (c, d)),
                ),
              )
      ]
    where
      peak : InversionReport float
      peak = find_peak float results (no_inversion float)

      quiet : peak.inverted ≡ false
      quiet = find_peak-inverted results (no_inversion float)

      located : Located results peak
      located = find_peak-Located [] results results (no_inversion float) refl (inl (refl, refl))
