-- ===== src/Query/Tests/Evaluation.antt =====
-- Runs of the optimiser and of the evaluation (qopt.c, evaluate.c).
use evlog.Prelude.{◌*◌, ◌^◌, true, false, none, some, [], ◌≡◌, refl, arith}
use evlog.Query.Tree.{eq, host, Entry, ge, gt, conj, severity, age, fuzzy_false, Pnode, NonStdAtts}
use evlog.Query.Compare.{numeric_comparisons, unsigned_order}
use evlog.Query.Attribute.{present_att}
use evlog.Query.Evaluate.{evaluate_tree, evaluate_comparison, compare_member}
use evlog.Query.Normal.{holds, is_true}
use evlog.Query.Total.{evaluate_tree-holds}
use evlog.Query.Optimize.Divide.{DivInfo, no_nodes, divide_tree, di_classify, refs_nonstd_atts}
use evlog.Query.Optimize.Missing.{simulate_missing_nsa}
use evlog.Query.Optimize.Annotate.{optimize_tree}
use evlog.Query.Optimize.MissingSound.{Agrees, simulate_missing_nsa-Agrees}
use evlog.Query.Optimize.Classify.{Adds}
use evlog.Query.Optimize.Classify.Adding.{di_classify-Adds}
use evlog.Query.Optimize.DivideSound.{Divided, parted, divide_tree-Divided}
use evlog.Query.Screen.{
  prepare_nonstd_atts, evaluate_left, is_maybe, evaluate_query, evaluate_nsa_tree,
}
use evlog.Query.Screen.Refs.{reference_atts}
use evlog.Query.Screen.Verdict.{IsAnnotated, IsPrepared, prepare-IsPrepared}
use evlog.Query.Screen.Release.{evaluate_nsa_tree-released}
use evlog.Query.Pipeline.{evaluate_nsa_tree-holds}
use evlog.Query.Pipeline.Optimized.{optimize_tree-evaluate}
use evlog.Query.Members.{compare_member-severity, compare_member-age, compare_member-no_host}
use evlog.Query.Tests.Samples.{
  eval_env, entry, template, other_template, normalized, divided, on_pid, on_speed, speed_atts,
  annotated, sample_atts, sample_texts,
}

divides_sample : divide_tree normalized ≡ some divided
unfolding divide_tree refs_nonstd_atts
divides_sample = refl

optimizes_sample : optimize_tree normalized (some speed_atts) ≡ some (divided, some annotated)
unfolding optimize_tree refs_nonstd_atts
optimizes_sample = refl

evaluates_sample :
    (evaluate_query eval_env entry [] (some template) (some annotated) divided).truth ≡ some true
unfolding evaluate_query evaluate_tree
evaluates_sample = refl

without_template :
    (evaluate_query eval_env entry [] none (some annotated) divided).truth ≡ some false
unfolding evaluate_query evaluate_tree
without_template = refl

annotated_sample : IsAnnotated divided annotated
unfolding simulate_missing_nsa
annotated_sample = record { all_missing = refl; each_missing = (refl, tt) }

divided_sample : Divided eval_env sample_atts entry [] normalized divided
unfolding holds refs_nonstd_atts evaluate_comparison
divided_sample = parted conj on_pid on_speed tt (refl, (tt, tt)) (tt, tt) refl

evaluate_tree-holds_example :
    evaluate_tree eval_env sample_atts entry [] normalized
    ≡ some (holds eval_env sample_atts entry [] normalized)
evaluate_tree-holds_example =
    evaluate_tree-holds eval_env sample_atts entry [] sample_texts normalized ((tt, tt), (tt, tt))

simulate_missing_nsa-Agrees_example : Agrees fuzzy_false (holds eval_env none entry [] divided)
unfolding simulate_missing_nsa present_att
simulate_missing_nsa-Agrees_example =
    simulate_missing_nsa-Agrees eval_env none entry [] none (λ i h. refl) divided refl

di_classify-Adds_example :
    (di' : DivInfo) × (di_classify conj normalized no_nodes ≡ some di')
    × Adds eval_env sample_atts entry [] conj normalized no_nodes di'
di_classify-Adds_example =
    di_classify-Adds eval_env sample_atts entry [] conj normalized no_nodes tt ((tt, tt), (tt, tt))
      (record { pures = tt; impures = tt; recycled = tt })

divide_tree-Divided_example :
    (t' : Pnode) × (divide_tree normalized ≡ some t')
    × Divided eval_env sample_atts entry [] normalized t'
unfolding refs_nonstd_atts is_true
divide_tree-Divided_example =
    divide_tree-Divided eval_env sample_atts entry [] normalized ((tt, tt), (tt, tt)) refl

prepare-IsPrepared_example :
    IsPrepared eval_env entry [] divided
      (reference_atts (some template) annotated.ns_atts)
      (prepare_nonstd_atts (some template) annotated)
prepare-IsPrepared_example =
    prepare-IsPrepared eval_env entry [] divided (some template) annotated annotated_sample
      (refl, tt)

evaluate_nsa_tree-holds_example :
    (evaluate_nsa_tree eval_env entry [] (some template) annotated divided).truth
    ≡ some (holds eval_env sample_atts entry [] normalized)
unfolding reference_atts
evaluate_nsa_tree-holds_example =
    evaluate_nsa_tree-holds eval_env entry [] (some template) annotated sample_texts (refl, tt)
      divided_sample annotated_sample

optimize_tree-evaluate_example :
    (t' : Pnode) × (ns' : NonStdAtts) × (optimize_tree normalized (some speed_atts)
      ≡ some (t', some ns'))
    × ((evaluate_query eval_env entry [] (some template) (some ns') t').truth
        ≡ evaluate_tree eval_env
            (reference_atts (some template) speed_atts.ns_atts)
            entry
            []
            normalized)
unfolding reference_atts refs_nonstd_atts is_true
optimize_tree-evaluate_example =
    optimize_tree-evaluate eval_env entry [] (some template) normalized speed_atts
      ((tt, tt), (tt, tt)) refl (refl, tt) sample_texts

-- The template of another event has no `speed`: it is released twice.
evaluate_nsa_tree-released_example :
    (evaluate_nsa_tree eval_env entry [] (some other_template) annotated divided).released ≡ 2
unfolding evaluate_left evaluate_tree prepare_nonstd_atts is_maybe
evaluate_nsa_tree-released_example =
    evaluate_nsa_tree-released eval_env entry [] other_template annotated divided true refl refl

-- `severity >= 4` on a record of severity 3, which is more severe.
compare_member-severity_example :
    compare_member eval_env ge severity entry 4 ≡ numeric_comparisons ge (unsigned_order 4 3)
compare_member-severity_example =
    compare_member-severity eval_env ge entry 4 tt (ground arith) (ground arith)

-- `age > 60`, at 1000, on a record of 900.
compare_member-age_example :
    compare_member eval_env gt age entry 60 ≡ numeric_comparisons gt (unsigned_order 100 60)
compare_member-age_example =
    compare_member-age eval_env gt entry 60 tt (ground arith) (ground arith) (ground arith)

-- The node 255.5, and the query `host = "255.5"`.
abbrev far_entry : Entry
far_entry = record entry { log_processor = 65285 * 2 ^ 16 }

compare_member-no_host_example : compare_member eval_env eq host far_entry 65285 ≡ false
compare_member-no_host_example =
    compare_member-no_host eval_env far_entry 65285 (ground arith) (ground arith) (ground arith)
