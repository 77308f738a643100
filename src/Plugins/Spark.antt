-- ===== src/Plugins/Spark.antt =====
-- The checks of the plugin for Spark (sahara/plugins/spark/plugin.py).
use sahara.Base.{
  ℕ, ◌+◌, ◌≤◌, ◌≡◌, refl, true, false, not, ◌&&◌, String, List, [], ◌∷◌, ok, Error, Check, raise_if,
  raise_if-eq-ok, raise_if-ok, >>-eq-ok, >>-ok, >>=-eq-ok, ◌>>◌, arith, ltb, ◌==◌, mem, All, length,
}
use sahara.Base.Dict.{Dict, update, contains}
use sahara.Objects.{NodeGroup}
use sahara.Ops.Surplus.{IsFull}
use sahara.Plugins.{
  get_instances_count, get_instances, datanodes_to_delete, validate_existing_ng_scaling,
  check_additional,
}
use sahara.Plugins.Counts.{rescale, Movable, count_unmoved, length-get_instances}
use sahara.Plugins.Deletions.{deleted-Enough}
use sahara.Plugins.Moves.{HasOwnIds, All-Merges, update-Movable, check_additional-Movable}

abbrev pub spark_scalable : List String
spark_scalable = "datanode" ∷ "slave" ∷ []

-- The checks of `validate`, on the counts of the processes.
abbrev pub check_spark : (rep_factor nn dn master slave : ℕ) → Check
check_spark rep_factor nn dn master slave = do
  raise_if (not (nn == 1)) Error.invalid_component_count
  raise_if (ltb dn 1) Error.invalid_component_count
  raise_if (ltb dn rep_factor) Error.invalid_component_count
  raise_if (not (master == 1)) Error.required_service_missing
  raise_if (ltb slave 1) Error.invalid_component_count

-- `rep_factor` is the config dfs.replication, with its default.
unfoldable pub validate_spark : ℕ → List NodeGroup → Check
validate_spark rep_factor ngs =
    check_spark rep_factor (get_instances_count "namenode" ngs) (get_instances_count "datanode" ngs)
      (get_instances_count "master" ngs) (get_instances_count "slave" ngs)

unfoldable pub validate_spark_scaling : ℕ → List NodeGroup → Dict ℕ → Dict ℕ → Check
validate_spark_scaling rep_factor ngs existing additional = do
  validate_existing_ng_scaling spark_scalable rep_factor ngs existing
  check_additional spark_scalable ngs additional

check_spark-passed :
    (rep nn dn master slave : ℕ)
    → check_spark rep nn dn master slave ≡ ok tt
    → (nn ≡ 1) × (1 ≤ dn) × (rep ≤ dn) × (master ≡ 1) × (1 ≤ slave)
check_spark-passed rep nn dn master slave h =
    let (h1, r1) = >>-eq-ok (raise_if (not (nn == 1)) Error.invalid_component_count) _ h in
    let (h2, r2) = >>-eq-ok (raise_if (ltb dn 1) Error.invalid_component_count) _ r1 in
    let (h3, r3) = >>-eq-ok (raise_if (ltb dn rep) Error.invalid_component_count) _ r2 in
    let (h4, h5) = >>-eq-ok (raise_if (not (master == 1)) Error.required_service_missing) _ r3 in
    (
      ground (arith, raise_if-eq-ok (not (nn == 1)) Error.invalid_component_count h1),
      ground (arith, raise_if-eq-ok (ltb dn 1) Error.invalid_component_count h2),
      ground (arith, raise_if-eq-ok (ltb dn rep) Error.invalid_component_count h3),
      ground (arith, raise_if-eq-ok (not (master == 1)) Error.required_service_missing h4),
      ground (arith, raise_if-eq-ok (ltb slave 1) Error.invalid_component_count h5),
    )

check_spark-passes :
    (rep nn dn master slave : ℕ)
    → (nn ≡ 1) × (1 ≤ dn) × (rep ≤ dn) × (master ≡ 1) × (1 ≤ slave)
    → check_spark rep nn dn master slave ≡ ok tt
check_spark-passes rep nn dn master slave (h1, h2, h3, h4, h5) =
    >>-ok (raise_if-ok (not (nn == 1)) _ (ground arith)) (
      >>-ok (raise_if-ok (ltb dn 1) _ (ground arith)) (
        >>-ok (raise_if-ok (ltb dn rep) _ (ground arith)) (
          >>-ok (raise_if-ok (not (master == 1)) _ (ground arith))
            (raise_if-ok (ltb slave 1) _ (ground arith)))))

module _ (rep_factor : ℕ) (ngs : List NodeGroup) (existing additional : Dict ℕ) where
  abbrev after : List NodeGroup
  after = rescale (update existing additional) ngs

  -- What the checks of a scaling establish.
  record Passed : Type 0 where
    moved : Movable spark_scalable (update existing additional) ngs
    replicas :
        rep_factor ≤ get_instances_count "datanode" ngs
        → rep_factor ≤ get_instances_count "datanode" after

  validate_spark_scaling-Passed :
      IsFull ngs
      → HasOwnIds ngs
      → All (λ ng. contains ng.id additional ≡ true → ng.count ≡ 0) ngs
      → validate_spark_scaling rep_factor ngs existing additional ≡ ok tt
      → Passed
  unfolding validate_spark_scaling validate_existing_ng_scaling
  validate_spark_scaling-Passed full own fresh h =
      let (h1, h2) =
        >>-eq-ok (validate_existing_ng_scaling spark_scalable rep_factor ngs existing) _ h in
      let (d, e, enough) = >>=-eq-ok (datanodes_to_delete spark_scalable existing ngs) _ h1 in
      let (bound, movable) =
        deleted-Enough spark_scalable (update existing additional) existing ngs d
          (All-Merges existing additional ngs fresh) e in
      record {
        moved =
            update-Movable spark_scalable existing additional ngs
              (check_additional-Movable spark_scalable ngs additional own h2) movable;
        replicas = λ before. ground (
          arith,
          length-get_instances "datanode" ngs full,
          raise_if-eq-ok (ltb 0 d && ltb (length (get_instances "datanode" ngs)) (rep_factor + d))
              Error.cluster_cannot_be_scaled enough,
        );
      }

  -- A valid Spark cluster is valid after a scaling that the plugin accepts and that leaves a slave,
  -- when data has a replica, ids are unique, every counted instance exists and the node groups that
  -- are added have none.
  pub validate_spark_scaling-validate_spark :
      IsFull ngs
      → HasOwnIds ngs
      → All (λ ng. contains ng.id additional ≡ true → ng.count ≡ 0) ngs
      → 1 ≤ rep_factor
      → validate_spark rep_factor ngs ≡ ok tt
      → validate_spark_scaling rep_factor ngs existing additional ≡ ok tt
      → 1 ≤ get_instances_count "slave" after
      → validate_spark rep_factor after ≡ ok tt
  unfolding validate_spark
  validate_spark_scaling-validate_spark full own fresh replicated valid h slaves =
      let p = validate_spark_scaling-Passed full own fresh h in
      let (nn, dn, rep, master, slave) =
        check_spark-passed rep_factor (get_instances_count "namenode" ngs)
          (get_instances_count "datanode" ngs) (get_instances_count "master" ngs)
          (get_instances_count "slave" ngs) valid in
      check_spark-passes rep_factor (get_instances_count "namenode" after)
        (get_instances_count "datanode" after) (get_instances_count "master" after)
        (get_instances_count "slave" after)
        (
          omega (arith, nn, unmoved "namenode" refl p),
          omega (arith, p.replicas rep, replicated),
          p.replicas rep,
          omega (arith, master, unmoved "master" refl p),
          slaves,
        )
    where
      unmoved :
          (process : String)
          → mem process spark_scalable ≡ false
          → Passed
          → get_instances_count process after ≡ get_instances_count process ngs
      unmoved process out p =
          count_unmoved spark_scalable (update existing additional) process ngs out p.moved
