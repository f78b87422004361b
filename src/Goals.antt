-- ===== src/Goals.antt =====
-- api/src/goals/goals.service.ts, with the bodies of goals/dto.
--
-- Identifiers stand as numbers: the code only compares them. A time is in milliseconds.
pub mod Rows
pub mod Lifecycle
pub mod Invariant
pub mod History
mod Tests
use stead.Prelude.{
  ℕ, ◌==◌, String, Bool, true, false, not, ltb, ◌&&◌, ◌||◌, Option, none, some, List, [], ◌∷◌,
  get_or, Result, ok, err, Error, bad_request, not_found, internal, ◌>>=◌, ◌>>◌, guard, require,
  if◌then◌else◌,
}
use stead.Store.{Table}

pub data GoalStatus : Type 0 where
  active completed cancelled replaced : GoalStatus

pub record Goal : Type 0 where
  pub id : ℕ
  pub user_id : ℕ
  pub name : String
  pub amount_total_kobo : ℕ
  pub due_date : ℕ
  pub monthly_income_kobo : Option ℕ
  pub is_active : Bool
  pub status : GoalStatus
  pub ended_at : Option ℕ
  pub created_at : ℕ

-- The primary key, and the partial unique index Goal_one_active_per_user_idx.
abbrev pub clash : Goal → Goal → Bool
clash g h = g.id == h.id || g.is_active && h.is_active && g.user_id == h.user_id

pub record CreateGoal : Type 0 where
  pub name : String
  pub amount_total_kobo : ℕ
  pub due_date : ℕ
  pub monthly_income_kobo : Option ℕ

-- An absent field is `none`; the income may also be null.
pub record UpdateGoal : Type 0 where
  pub name : Option String
  pub amount_total_kobo : Option ℕ
  pub due_date : Option ℕ
  pub monthly_income_kobo : Option (Option ℕ)
  pub is_active : Option Bool

pub data EndStatus : Type 0 where
  as_completed as_cancelled : EndStatus

abbrev pub end_status : EndStatus → GoalStatus
end_status as_completed = completed
end_status as_cancelled = cancelled

abbrev pub is_active_status : GoalStatus → Bool
is_active_status active = true
is_active_status _ = false

-- What an update leaves of a goal that another one replaces.
abbrev pub replace_goal : ℕ → Goal → Goal
replace_goal now g = record g { is_active = false; status = replaced; ended_at = some now }

abbrev pub new_goal : ℕ → ℕ → ℕ → CreateGoal → Goal
new_goal id user now dto = record {
  id = id;
  user_id = user;
  name = dto.name;
  amount_total_kobo = dto.amount_total_kobo;
  due_date = dto.due_date;
  monthly_income_kobo = dto.monthly_income_kobo;
  is_active = true;
  status = active;
  ended_at = none;
  created_at = now;
}

abbrev pub updated_status : Option Bool → Bool → GoalStatus → GoalStatus
updated_status (some true) was old = active
updated_status (some false) was old = if was then cancelled else old
updated_status none was old = old

abbrev pub updated_end : Option Bool → Bool → ℕ → Option ℕ → Option ℕ
updated_end (some true) was now old = none
updated_end (some false) was now old = if was then some now else old
updated_end none was now old = old

-- The data of the update; `was` is the flag of the row that was read before.
abbrev pub updated_goal : UpdateGoal → Bool → ℕ → Goal → Goal
updated_goal dto was now g = record g {
  name = get_or dto.name g.name;
  amount_total_kobo = get_or dto.amount_total_kobo g.amount_total_kobo;
  due_date = get_or dto.due_date g.due_date;
  monthly_income_kobo = get_or dto.monthly_income_kobo g.monthly_income_kobo;
  is_active = get_or dto.is_active g.is_active;
  status = updated_status dto.is_active was g.status;
  ended_at = updated_end dto.is_active was now g.ended_at;
}

abbrev pub ended_goal : EndStatus → ℕ → Goal → Goal
ended_goal status now g = record g {
  is_active = false;
  status = end_status status;
  ended_at = some now;
}

abbrev pub owns : ℕ → ℕ → Goal → Bool
owns user id g = g.id == id && g.user_id == user

abbrev pub active_of : ℕ → Goal → Bool
active_of user g = g.user_id == user && g.is_active

abbrev pub endable : ℕ → ℕ → Goal → Bool
endable user id g = owns user id g && g.is_active && is_active_status g.status

-- The values that a BIGINT column takes; the database refuses the others.
abbrev pub bigint_limit : ℕ
bigint_limit = 9_223_372_036_854_775_808

abbrev pub column_fits : Option ℕ → Bool
column_fits none = true
column_fits (some k) = ltb k bigint_limit

abbrev pub create_fits : CreateGoal → Bool
create_fits dto = ltb dto.amount_total_kobo bigint_limit && column_fits dto.monthly_income_kobo

abbrev pub update_fits : UpdateGoal → Bool
update_fits dto =
    column_fits dto.amount_total_kobo && column_fits (get_or dto.monthly_income_kobo none)

-- `dto.isActive === true`
abbrev pub activates : UpdateGoal → Bool
activates dto = get_or dto.is_active false

module _ (goals : Table Goal clash) where
  -- The request's result and the rows after it; a request that throws leaves the rows as they
  -- were, since each body is one transaction.
  unfoldable pub create : ℕ → CreateGoal → ℕ → ℕ → List Goal → Result (Goal × List Goal)
  create user dto id now rows = do
    let goal = new_goal id user now dto
    let (others, _) = goals.update_many (active_of user) (replace_goal now) rows
    guard (create_fits dto) internal
    after ← require (goals.create goal others) internal
    ok (goal, after)

  unfoldable pub get_active : ℕ → List Goal → Result Goal
  get_active user rows =
      require
        (goals.find_latest (λ g. active_of user g && is_active_status g.status) (λ g. g.created_at)
          rows)
        not_found

  unfoldable pub update : ℕ → ℕ → UpdateGoal → ℕ → List Goal → Result (Goal × List Goal)
  update user id dto now rows = do
    existing ← require (goals.find_first (owns user id) rows) not_found
    let (others, _) =
        goals.update_many (λ g. active_of user g && not (g.id == id)) (replace_goal now) rows
    guard (update_fits dto) internal
    require
        (goals.update (λ g. g.id == id) (updated_goal dto existing.is_active now)
          (if activates dto then others else rows))
        internal

  unfoldable pub end : ℕ → ℕ → EndStatus → ℕ → List Goal → Result (Goal × List Goal)
  end user id status now rows = do
    existing ← require (goals.find_first (owns user id) rows) not_found
    guard (existing.is_active && is_active_status existing.status) bad_request
    let (after, ended) = goals.update_many (endable user id) (ended_goal status now) rows
    guard (ended == 1) bad_request
    goal ← require (goals.find_first (owns user id) after) not_found
    ok (goal, after)
