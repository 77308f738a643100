-- ===== src/Plugins/Survival.antt =====
-- A cluster that the checks of the Vanilla plugin let pass passes them after a scaling too.
use sahara.Base.{
  ℕ, ◌≤◌, ◌≡◌, refl, sym, ap, ◌∙◌, ok-injective, mem, true, false, String, List, ok, >>-eq-ok,
  >>=-eq-ok, arith, is_some,
}
use sahara.Base.Dict.{Dict, update, contains}
use sahara.Objects.{NodeGroup}
use sahara.Plugins.{
  get_instances_count, get_instance, is_scalable, datanodes_to_delete, validate_existing_ng_scaling,
}
use sahara.Plugins.Counts.{Movable, count_unmoved, get_instance-none, count_stays_zero}
use sahara.Plugins.Deletions.{deleted-Enough}
use sahara.Plugins.Vanilla.{
  scalable_processes, validate_cluster_creating, validate_additional_ng_scaling,
  validate_vanilla_scaling,
}
use sahara.Plugins.Moves.{All-Merges, All-map, update-Movable}
use sahara.Plugins.Scaled.{
  Ready, scaled, Added, oozie_passed, oozie_passes, check_counts-passed, check_counts-passes,
  All-Added, All-managed, replicas_left,
}

module _ (rep_factor : ℕ) (ngs : List NodeGroup) (existing additional : Dict ℕ) where
  abbrev after : List NodeGroup
  after = scaled rep_factor ngs existing additional

  -- What the checks of a scaling establish.
  record Passed : Type 0 where
    moved : Movable scalable_processes (update existing additional) ngs
    replicas :
        rep_factor ≤ get_instances_count "datanode" ngs
        → rep_factor ≤ get_instances_count "datanode" after
    managed :
        get_instances_count "resourcemanager" ngs ≡ 0
        → get_instances_count "nodemanager" ngs ≡ 0
        → get_instances_count "nodemanager" after ≡ 0

  validate_vanilla_scaling-Passed :
      Ready rep_factor ngs existing additional
      → validate_vanilla_scaling rep_factor ngs existing additional ≡ ok tt
      → Passed
  unfolding validate_vanilla_scaling validate_additional_ng_scaling validate_existing_ng_scaling
  validate_vanilla_scaling-Passed ready h =
      let (h1, h2) = >>-eq-ok (validate_additional_ng_scaling ngs additional) _ h in
      let (rm, e1, ids) = >>=-eq-ok (get_instance "resourcemanager" ngs) _ h1 in
      let (d, e2, enough) = >>=-eq-ok (datanodes_to_delete scalable_processes existing ngs) _ h2 in
      let added = All-Added rep_factor ngs existing additional rm ngs ids ready.ids in
      let (bound, movable) =
        deleted-Enough scalable_processes (update existing additional) existing ngs d
          (All-Merges existing additional ngs ready.fresh) e2 in
      record {
        moved =
            update-Movable scalable_processes existing additional ngs
              (All-map (Added rep_factor ngs existing additional rm)
                (λ ng. contains ng.id additional ≡ true → is_scalable scalable_processes ng ≡ true)
                ngs (λ ng a there. (a there).0) added)
              movable;
        replicas = λ before.
            replicas_left rep_factor ngs existing additional d ready.full bound before enough;
        managed = λ none_before none_run.
            count_stays_zero (update existing additional) "nodemanager" ngs
              (All-managed rep_factor ngs existing additional rm ngs
                (ap is_some (
                  sym (
                    ok-injective
                      (sym (get_instance-none "resourcemanager" ngs ready.full none_before) ∙ e1))))
                added ready.used)
              none_run;
      }

  unmoved :
      (process : String)
      → mem process scalable_processes ≡ false
      → Passed
      → get_instances_count process after ≡ get_instances_count process ngs
  unmoved process out p =
      count_unmoved scalable_processes (update existing additional) process ngs out p.moved

  -- A valid cluster that is Ready for a scaling is valid after it where the plugin accepts the
  -- scaling, when an Oozie server that it has is left a node manager.
  pub validate_vanilla_scaling-validate_cluster_creating :
      Ready rep_factor ngs existing additional
      → validate_cluster_creating rep_factor ngs ≡ ok tt
      → validate_vanilla_scaling rep_factor ngs existing additional ≡ ok tt
      → (get_instances_count "oozie" ngs ≡ 1 → 1 ≤ get_instances_count "nodemanager" after)
      → validate_cluster_creating rep_factor after ≡ ok tt
  unfolding validate_cluster_creating
  validate_vanilla_scaling-validate_cluster_creating ready valid h oozie =
      let p = validate_vanilla_scaling-Passed ready h in
      let (nn, snn, rm, hs, nm, oo, ooz, dn, hive) =
        check_counts-passed rep_factor (get_instances_count "namenode" ngs)
          (get_instances_count "secondarynamenode" ngs) (get_instances_count "resourcemanager" ngs)
          (get_instances_count "historyserver" ngs) (get_instances_count "nodemanager" ngs)
          (get_instances_count "oozie" ngs) (get_instances_count "datanode" ngs)
          (get_instances_count "hiveserver" ngs) valid in
      check_counts-passes rep_factor (get_instances_count "namenode" after)
        (get_instances_count "secondarynamenode" after)
        (get_instances_count "resourcemanager" after) (get_instances_count "historyserver" after)
        (get_instances_count "nodemanager" after) (get_instances_count "oozie" after)
        (get_instances_count "datanode" after) (get_instances_count "hiveserver" after)
        (omega (arith, nn, unmoved "namenode" refl p))
        (omega (arith, snn, unmoved "secondarynamenode" refl p))
        (omega (arith, rm, unmoved "resourcemanager" refl p))
        (omega (arith, hs, unmoved "historyserver" refl p))
        (λ none_after.
          p.managed (sym (unmoved "resourcemanager" refl p) ∙ none_after)
            (nm (sym (unmoved "resourcemanager" refl p) ∙ none_after)))
        (omega (arith, oo, unmoved "oozie" refl p))
        (oozie_passes (get_instances_count "oozie" after) (get_instances_count "datanode" after)
          (get_instances_count "nodemanager" after) (get_instances_count "historyserver" after)
          (λ one.
            let before = sym (unmoved "oozie" refl p) ∙ one in
            let (some_dn, some_nm, some_hs) =
              oozie_passed (get_instances_count "oozie" ngs) (get_instances_count "datanode" ngs)
                (get_instances_count "nodemanager" ngs) (get_instances_count "historyserver" ngs)
                ooz before in
            (
              omega (arith, p.replicas dn, ready.replicated),
              oozie before,
              unmoved "historyserver" refl p ∙ some_hs,
            )))
        (p.replicas dn) (omega (arith, hive, unmoved "hiveserver" refl p))
