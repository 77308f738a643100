-- ===== src/JobChecks/Scripts.antt =====
-- Which mains and libs the checks of a job let pass.
use sahara.Base.{
  ◌≡◌, refl, sym, ap, ◌∙◌, ◌↔◌, inl, inr, Bool, true, false, not, String, List, [], ◌∷◌, ok, Error,
  raise_if, raise_if-eq-ok, raise_if-ok, >>-eq-ok, >>-ok, if◌then◌else◌, str_eq, eq_iff, mem, arith,
  any, length, ◌≢◌, Bool-cases,
}
use sahara.JobChecks.{
  JobType, runs_mains, is_streaming, check_binaries, overlap, check_mains, check_libs,
  check_mains_libs,
}

-- A main script or application, and none that is a lib as well.
abbrev pub MainsOnly : List String → List String → Type 0
MainsOnly mains libs =
    (length mains ≢ 0) × ((b : String) → mem b mains ≡ true → mem b libs ≡ true → ⊥)

-- No main, and a lib.
abbrev pub LibsOnly : List String → List String → Type 0
LibsOnly mains libs = (mains ≡ []) × (length libs ≢ 0)

-- What a job of each type wants.
abbrev pub Wanted : JobType → List String → List String → Type 0
Wanted JobType.hive mains libs = MainsOnly mains libs
Wanted JobType.pig mains libs = MainsOnly mains libs
Wanted JobType.shell mains libs = MainsOnly mains libs
Wanted JobType.spark mains libs = MainsOnly mains libs
Wanted JobType.storm mains libs = MainsOnly mains libs
Wanted JobType.java mains libs = LibsOnly mains libs
Wanted JobType.mapreduce mains libs = LibsOnly mains libs
Wanted JobType.mapreduce_streaming mains libs = mains ≡ []

mem-any :
    (p : String → Bool) (values : List String) (b : String)
    → any p values ≡ false
    → mem b values ≡ true
    → p b ≡ false
mem-any p [] b h there = absurd (cc there)
mem-any p (v ∷ values) b h there = elim (Bool-cases (str_eq v b)) [
  | inl same ↦ ap p (sym ((eq_iff v b).0 same)) ∙ ground (arith, h)
  | inr other ↦ mem-any p values b (ground (arith, h)) (rw other at there)
]

any_none :
    (p : String → Bool) (values : List String)
    → ((b : String) → mem b values ≡ true → p b ≡ false)
    → any p values ≡ false
any_none p [] h = refl
any_none p (v ∷ values) h = ground (
  arith,
  h v (ground (arith, eq_iff v v)),
  any_none p values (λ b there. h b (ground (arith, there))),
)

not_true : (x : Bool) → (x ≡ true → ⊥) → x ≡ false
not_true true h = absurd (h refl)
not_true false h = refl

check_mains-MainsOnly :
    (mains libs : List String) → (check_mains mains libs ≡ ok tt) ↔ MainsOnly mains libs
check_mains-MainsOnly mains libs = (forth mains, back mains)
  where
    forth : (mains : List String) → check_mains mains libs ≡ ok tt → MainsOnly mains libs
    forth [] h = absurd (cc h)
    forth (m ∷ mains) h = (
      (λ e. absurd (omega (arith, e))),
      λ b there also. absurd (
          ground (
            arith,
            also,
            mem-any (λ main. mem main libs) (m ∷ mains) b
                (raise_if-eq-ok (overlap (m ∷ mains) libs) Error.invalid_data h) there,
          )),
    )

    back : (mains : List String) → MainsOnly mains libs → check_mains mains libs ≡ ok tt
    back [] (some_main, apart) = absurd (some_main refl)
    back (m ∷ mains) (some_main, apart) =
        raise_if-ok (overlap (m ∷ mains) libs) Error.invalid_data (
          any_none (λ main. mem main libs) (m ∷ mains)
            (λ b there. not_true (mem b libs) (apart b there)))

check_libs-LibsOnly :
    (mains libs : List String) → (check_libs false mains libs ≡ ok tt) ↔ LibsOnly mains libs
check_libs-LibsOnly [] [] = ((λ h. absurd (cc h)), λ h. absurd (h.1 refl))
check_libs-LibsOnly [] (l ∷ libs) = ((λ h. (refl, λ e. absurd (omega (arith, e)))), λ h. refl)
check_libs-LibsOnly (m ∷ mains) [] = ((λ h. absurd (cc h)), λ h. absurd (h.1 refl))
check_libs-LibsOnly (m ∷ mains) (l ∷ libs) = ((λ h. absurd (cc h)), λ h. absurd (cc h.0))

check_libs-streaming :
    (mains libs : List String) → (check_libs true mains libs ≡ ok tt) ↔ (mains ≡ [])
check_libs-streaming [] libs = ((λ h. refl), λ h. refl)
check_libs-streaming (m ∷ mains) libs = ((λ h. absurd (cc h)), λ h. absurd (cc h))

check-Wanted :
    (job_type : JobType) (mains libs : List String)
    → ((if runs_mains job_type
          then check_mains mains libs
          else check_libs (is_streaming job_type) mains libs)
        ≡ ok tt)
      ↔ Wanted job_type mains libs
check-Wanted JobType.hive mains libs = check_mains-MainsOnly mains libs
check-Wanted JobType.pig mains libs = check_mains-MainsOnly mains libs
check-Wanted JobType.shell mains libs = check_mains-MainsOnly mains libs
check-Wanted JobType.spark mains libs = check_mains-MainsOnly mains libs
check-Wanted JobType.storm mains libs = check_mains-MainsOnly mains libs
check-Wanted JobType.java mains libs = check_libs-LibsOnly mains libs
check-Wanted JobType.mapreduce mains libs = check_libs-LibsOnly mains libs
check-Wanted JobType.mapreduce_streaming mains libs = check_libs-streaming mains libs

abbrev pub Exist : (String → Bool) → List String → Type 0
Exist get_job_binary values = (b : String) → mem b values ≡ true → get_job_binary b ≡ true

check_binaries-Exist :
    (get_job_binary : String → Bool) (values : List String)
    → check_binaries get_job_binary values ≡ ok tt
    → Exist get_job_binary values
check_binaries-Exist get [] h b there = absurd (cc there)
check_binaries-Exist get (v ∷ values) h b there =
    let (first, rest) = >>-eq-ok (raise_if (not (get v)) Error.not_found) _ h in
    elim (Bool-cases (str_eq v b)) [
      | inl same ↦
          ap get (sym ((eq_iff v b).0 same))
          ∙ ground (arith, raise_if-eq-ok (not (get v)) Error.not_found first)
      | inr other ↦ check_binaries-Exist get values rest b (rw other at there)
    ]

Exist-check_binaries :
    (get_job_binary : String → Bool) (values : List String)
    → Exist get_job_binary values
    → check_binaries get_job_binary values ≡ ok tt
Exist-check_binaries get [] h = refl
Exist-check_binaries get (v ∷ values) h =
    >>-ok (raise_if-ok (not (get v)) Error.not_found (ap not (h v (first v values))))
      (Exist-check_binaries get values (λ b there. h b (later b v values there)))
  where
    first : (v : String) (values : List String) → mem v (v ∷ values) ≡ true
    first v values = ground (arith, eq_iff v v)

    later : (b v : String) (values : List String) → mem b values ≡ true → mem b (v ∷ values) ≡ true
    later b v values there = ground (arith, there)

-- A job passes exactly when every main and every lib is a binary that exists, and: for Hive, Pig,
-- shell, Spark and Storm there is a main and none is a lib as well; for Java and MapReduce there is
-- a lib and no main; for streaming MapReduce there is no main.
pub check_mains_libs_iff :
    (get_job_binary : String → Bool) (job_type : JobType) (mains libs : List String)
    → (check_mains_libs get_job_binary job_type mains libs ≡ ok tt)
      ↔ (Wanted job_type mains libs × (Exist get_job_binary mains × Exist get_job_binary libs))
unfolding check_mains_libs
check_mains_libs_iff get job_type mains libs = (
  (λ h.
      let (h1, r1) =
        >>-eq-ok
          (if runs_mains job_type
            then check_mains mains libs
            else check_libs (is_streaming job_type) mains libs)
          _ h in
      let (h2, h3) = >>-eq-ok (check_binaries get mains) _ r1 in
      (
        (check-Wanted job_type mains libs).0 h1,
        (check_binaries-Exist get mains h2, check_binaries-Exist get libs h3),
      )),
  λ (wanted, (m, l)).
      >>-ok ((check-Wanted job_type mains libs).1 wanted)
        (>>-ok (Exist-check_binaries get mains m) (Exist-check_binaries get libs l)),
)
