-- ===== src/Goals/Tests.antt =====
-- Runs of goals.service.ts, and its theorems at concrete tables.
use stead.Prelude.{
  ◌≡◌, refl, true, false, none, some, List, [], ◌∷◌, arith, find, modify, ok, err, not_found,
  bad_request,
}
use stead.Store.{Table}
use stead.Store.Memory.{memory}
use stead.Goals.{
  Goal, replaced, CreateGoal, UpdateGoal, as_completed, clash, owns, new_goal, update, end,
  get_active,
}
use stead.Goals.Rows.{updated_rows}
use stead.Goals.Invariant.{Inv, created_rows}
use stead.Goals.Lifecycle.{create_lem, update_lem, end_lem, get_active-create, Updated, Ended}
use stead.Goals.History.{creates, Reach, start, next, Reach-Inv, Step-goals_of, goals_of}

abbrev goals : Table Goal clash
goals = memory clash

abbrev rent : CreateGoal
rent = record {
  name = "Rent";
  amount_total_kobo = 1200;
  due_date = 900;
  monthly_income_kobo = none;
}

abbrev fees : CreateGoal
fees = record {
  name = "Fees";
  amount_total_kobo = 500;
  due_date = 800;
  monthly_income_kobo = some 70;
}

-- The user 7 creates the goal 1, then the goal 2, which replaces it.
abbrev one_goal : List Goal
one_goal = created_rows (new_goal 1 7 10 rent) 10 []

abbrev two_goals : List Goal
two_goals = created_rows (new_goal 2 7 20 fees) 20 one_goal

one_goal-Reach : Reach goals one_goal
one_goal-Reach = next start (creates rent 1 10 _ refl (create_lem goals 7 rent 1 10 []))

two_goals-Reach : Reach goals two_goals
two_goals-Reach =
    next one_goal-Reach (creates fees 2 20 _ refl (create_lem goals 7 fees 2 20 one_goal))

abbrev reopen : UpdateGoal
reopen = record {
  name = none;
  amount_total_kobo = none;
  due_date = none;
  monthly_income_kobo = some none;
  is_active = some true;
}

-- The first goal is turned on again, which replaces the second.
reopened :
    modify (λ g. true) (λ g. record g { name = "" }) (updated_rows 7 1 reopen false 30 two_goals)
    ≡ record (new_goal 1 7 10 rent) { name = "" }
      ∷ record (new_goal 2 7 20 fees) {
        name = "";
        is_active = false;
        status = replaced;
        ended_at = some 30;
      }
      ∷ []
reopened = refl

missing_goal : end goals 8 2 as_completed 30 two_goals ≡ err not_found
unfolding end memory
missing_goal = refl

ended_twice : end goals 7 1 as_completed 30 two_goals ≡ err bad_request
unfolding end memory
ended_twice = refl

Reach-Inv_example : Inv two_goals
Reach-Inv_example = Reach-Inv goals two_goals-Reach

update_lem_example :
    update goals 7 1 reopen 30 two_goals
    ≡ Updated goals 7 1 reopen 30 two_goals (find (owns 7 1) two_goals)
update_lem_example = update_lem goals 7 1 reopen 30 two_goals (Reach-Inv goals two_goals-Reach)

end_lem_example :
    end goals 7 2 as_completed 30 two_goals
    ≡ Ended goals 7 2 as_completed 30 two_goals (find (owns 7 2) two_goals)
end_lem_example = end_lem goals 7 2 as_completed 30 two_goals (Reach-Inv goals two_goals-Reach)

get_active-create_example :
    (new_goal 2 7 20 fees ≡ new_goal 2 7 20 fees)
    × (get_active goals 7 two_goals ≡ ok (new_goal 2 7 20 fees))
get_active-create_example =
    get_active-create goals 7 fees 2 20 one_goal two_goals (new_goal 2 7 20 fees)
      (create_lem goals 7 fees 2 20 one_goal)

Step-goals_of_example :
    goals_of 7 (created_rows (new_goal 3 8 40 rent) 40 two_goals) ≡ goals_of 7 two_goals
Step-goals_of_example =
    Step-goals_of goals {user = 8} 7 (Reach-Inv goals two_goals-Reach)
      (creates rent 3 40 _ refl (create_lem goals 8 rent 3 40 two_goals)) (omega arith)
