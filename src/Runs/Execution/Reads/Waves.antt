-- ===== src/Runs/Execution/Reads/Waves.antt =====
-- The nodes of the wave that is being run.
use lluna.Prelude.{String, true, false, List, [], ◌∷◌, ◌++◌, ◌≡◌, arith, concat}
use lluna.Prelude.Key.{string_key}
use lluna.Prelude.Sets.{elem, elem-append}
use lluna.Graph.Scheduler.Levels.{IsLevelled}
use lluna.Runs.Values.{source_key}
use lluna.Runs.Execution.{first_wave}

module _ (R : String → String → Type 0) (past : List String) where
  pub first_wave_new :
      (waves : List (List String)) (m : String)
      → IsLevelled R past waves
      → elem m (first_wave waves) ≡ true
      → elem m past ≡ false
  unfolding elem
  first_wave_new [] m h here = ground arith
  first_wave_new (wave ∷ waves) m h here = h.0 m here

  pub first_wave_depends :
      (waves : List (List String)) (m n : String)
      → IsLevelled R past waves
      → elem n (first_wave waves) ≡ true
      → R m n
      → elem m past ≡ true
  unfolding elem
  first_wave_depends [] m n h here r = ground arith
  first_wave_depends (wave ∷ waves) m n h here r = h.1 m n here r

  pub first_wave_member :
      (waves : List (List String)) (m : String)
      → elem m (first_wave waves) ≡ true
      → elem m (past ++ concat waves) ≡ true
  unfolding elem
  first_wave_member [] m here = ground arith
  first_wave_member (wave ∷ waves) m here =
      ground (arith, elem-append m past (wave ++ concat waves), elem-append m wave (concat waves))
