-- ===== src/Logbook/Sweep.antt =====
-- What the sweep of logbook/root.py deletes.
use mathlib.Core.List.{Memᴰ}
use mathlib.Core.List.Memᴰ
use auto_weaver.Prelude.{
  ℕ, ◌+◌, String, ◌≡◌, refl, sym, ap, ◌∙◌, true, false, ◌⊎◌, Option, none, some, List, [], ◌∷◌, inl,
  inr, arith, length, length-append, ◌==◌, string_eq, eq_iff, if◌then◌else◌, Bool-cases,
}
use mathlib.Core.Path.{subst}
use auto_weaver.Value.{Result, ok, err}
use auto_weaver.Logbook.Root.{
  Dates, RunEntry, Sweep, no_sweep, same_name, parse_run_stamp, removed, sweep_dated, sweep_entry,
  sweep_all, prune_old_runs,
}
use auto_weaver.Frames.Scan.{mem-concat}

-- the directories among the entries
abbrev pub dirs : List RunEntry → ℕ
dirs [] = 0
dirs (e ∷ es) = if e.is_dir then dirs es + 1 else dirs es

module _ (D : Dates) where
  -- a directory that is named by a time, in the one way that the time is written, before the cutoff
  abbrev pub IsOld : D.Time → RunEntry → Type 0
  IsOld cutoff e =
      (e.is_dir ≡ true)
      × ((t : D.Time) × (D.strptime e.name ≡ some t)
          × (D.strftime t ≡ e.name)
          × (D.not_before t cutoff ≡ false))

  parse_run_stamp-some :
      (name : String) (o : Option D.Time) (t : D.Time)
      → same_name D name o ≡ some t
      → (o ≡ some t) × (D.strftime t ≡ name)
  parse_run_stamp-some name none t h = absurd (cc)
  parse_run_stamp-some name (some u) t h = elim (Bool-cases (D.strftime u == name)) [
    | inl e ↦
        let kept : same_name D name (some u) ≡ some u = rw e refl in
        let same : some u ≡ some t = sym kept ∙ h in
        let time : t ≡ u = (cc) in (same, ap D.strftime time ∙ (eq_iff (D.strftime u) name).0 e)
    | inr e ↦ let gone : same_name D name (some u) ≡ none = rw e refl in absurd (cc)
  ]

  removed-deleted :
      (r : Result (Unit {0})) (e : RunEntry) (s : Sweep) (name : String)
      → Memᴰ name (removed D r e s).deleted
      → Memᴰ name s.deleted ⊎ (name ≡ e.name)
  removed-deleted (err x) e s name m = inl m
  removed-deleted (ok t) e s name m = mem-concat name e.name s.deleted m

  sweep_dated-deleted :
      (cutoff : D.Time) (o : Option D.Time) (e : RunEntry) (s : Sweep) (name : String)
      → Memᴰ name (sweep_dated D cutoff o e s).deleted
      → Memᴰ name s.deleted
        ⊎ (name ≡ e.name) × ((t : D.Time) × (o ≡ some t) × (D.not_before t cutoff ≡ false))
  sweep_dated-deleted cutoff none e s name m = inl m
  sweep_dated-deleted cutoff (some t) e s name m = elim (Bool-cases (D.not_before t cutoff)) [
    | inl q ↦ inl (
        subst
          (λ b.
            Memᴰ name
              (if b then record s { kept = s.kept + 1 } else removed D e.removal e s).deleted)
          q m)
    | inr q ↦
        elim (removed-deleted e.removal e s name (
          subst
            (λ b.
              Memᴰ name
                (if b then record s { kept = s.kept + 1 } else removed D e.removal e s).deleted)
            q m)) [ inl n ↦ inl n | inr p ↦ inr (p, (t, refl, q)) ]
  ]

  sweep_entry-deleted :
      (cutoff : D.Time) (e : RunEntry) (s : Sweep) (name : String)
      → Memᴰ name (sweep_entry D cutoff e s).deleted
      → Memᴰ name s.deleted ⊎ (name ≡ e.name) × IsOld cutoff e
  unfolding sweep_entry parse_run_stamp
  sweep_entry-deleted cutoff e s name m = elim (Bool-cases e.is_dir) [
    | inl d ↦
        elim (sweep_dated-deleted cutoff (parse_run_stamp D e.name) e s name (
          subst
            (λ b.
              Memᴰ name
                (if b then sweep_dated D cutoff (parse_run_stamp D e.name) e s else s).deleted)
            d m)) [
              | inl n ↦ inl n
              | inr (p, (t, o, old)) ↦
                  let (parsed, written) = parse_run_stamp-some e.name (D.strptime e.name) t o in
                  inr (p, (d, (t, parsed, written, old)))
            ]
    | inr d ↦ inl (
        subst
          (λ b.
            Memᴰ name
              (if b then sweep_dated D cutoff (parse_run_stamp D e.name) e s else s).deleted)
          d m)
  ]

  sweep_all-deleted :
      (cutoff : D.Time) (es : List RunEntry) (s : Sweep) (name : String)
      → Memᴰ name (sweep_all D cutoff es s).deleted
      → Memᴰ name s.deleted ⊎ ((e : RunEntry) × Memᴰ e es × (name ≡ e.name) × IsOld cutoff e)
  unfolding sweep_all
  sweep_all-deleted cutoff [] s name m = inl m
  sweep_all-deleted cutoff (e ∷ es) s name m =
      elim (sweep_all-deleted cutoff es (sweep_entry D cutoff e s) name m) [
        | inl n ↦ elim (sweep_entry-deleted cutoff e s name n) [
          | inl k ↦ inl k
          | inr (p, old) ↦ inr (e, Memᴰ.head refl, p, old)
        ]
        | inr (f, k, p, old) ↦ inr (f, Memᴰ.tail k, p, old)
      ]

  -- how many entries are accounted for
  abbrev pub listed : Sweep → ℕ
  listed s = length s.deleted + s.kept + length s.skipped + length s.failed

  removed-listed :
      (r : Result (Unit {0})) (e : RunEntry) (s : Sweep) → listed (removed D r e s) ≡ listed s + 1
  removed-listed (err x) e s = omega (arith, length-append s.failed (e.name ∷ []))
  removed-listed (ok t) e s = omega (arith, length-append s.deleted (e.name ∷ []))

  sweep_dated-listed :
      (cutoff : D.Time) (o : Option D.Time) (e : RunEntry) (s : Sweep)
      → listed (sweep_dated D cutoff o e s) ≡ listed s + 1
  sweep_dated-listed cutoff none e s = omega (arith, length-append s.skipped (e.name ∷ []))
  sweep_dated-listed cutoff (some t) e s = elim (Bool-cases (D.not_before t cutoff)) [
    | inl q ↦ rw q (omega arith)
    | inr q ↦ rw q (removed-listed e.removal e s)
  ]

  sweep_entry-listed :
      (cutoff : D.Time) (e : RunEntry) (s : Sweep)
      → listed (sweep_entry D cutoff e s) ≡ (if e.is_dir then listed s + 1 else listed s)
  unfolding sweep_entry
  sweep_entry-listed cutoff e s =
      ground (arith, sweep_dated-listed cutoff (parse_run_stamp D e.name) e s)

  sweep_all-listed :
      (cutoff : D.Time) (es : List RunEntry) (s : Sweep)
      → listed (sweep_all D cutoff es s) ≡ listed s + dirs es
  unfolding sweep_all
  sweep_all-listed cutoff [] s = omega arith
  sweep_all-listed cutoff (e ∷ es) s =
      ground (
        arith,
        sweep_entry-listed cutoff e s,
        sweep_all-listed cutoff es (sweep_entry D cutoff e s),
      )

  -- The sweep deletes nothing but directories of `runs` whose name is a time, written the one way that
  -- times are written there, which lies more than the days to keep before now, and nothing at all if
  -- these are None or not positive. If they are positive, every directory is deleted, kept, skipped or
  -- failed, once.
  pub prune_old_runs-deleted :
      (limit : Option D.Days) (now : D.Time) (es : List RunEntry)
      → let s = prune_old_runs D limit now (some es) in
        ((name : String)
          → Memᴰ name s.deleted
          → (days : D.Days) × (limit ≡ some days)
            × (D.not_positive days ≡ false)
            × ((e : RunEntry) × Memᴰ e es × (name ≡ e.name) × IsOld (D.days_before days now) e))
        × ((days : D.Days)
            → limit ≡ some days
            → D.not_positive days ≡ false
            → length s.deleted + s.kept + length s.skipped + length s.failed ≡ dirs es)
  unfolding prune_old_runs
  prune_old_runs-deleted none now es = (λ name m. absurd (Memᴰ.not-nil m), λ days h. absurd (cc))
  prune_old_runs-deleted (some limit) now es = elim (Bool-cases (D.not_positive limit)) [
    | inl q ↦ rw q (λ name m. absurd (Memᴰ.not-nil m), λ days h p. absurd (cc))
    | inr q ↦ rw q (
      λ name m. elim (sweep_all-deleted (D.days_before limit now) es no_sweep name m) [
        | inl n ↦ absurd (Memᴰ.not-nil n)
        | inr old ↦ (limit, refl, q, old)
      ],
      λ days h p. omega (arith, sweep_all-listed (D.days_before limit now) es no_sweep),
    )
  ]
