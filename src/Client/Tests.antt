-- ===== src/Client/Tests.antt =====
-- Runs of the client's forms, and their theorems at concrete texts.
use stead.Prelude.{◌≡◌, refl, none, some, [], arith}
use stead.Statement.Text.{codes, show, digits, number_from, split, trim, trim_start, trim_end}
use stead.Statement.Values.{iso_date}
use stead.Client.Forms.{
  normalized, kobo_to_naira_input, naira_input_to_kobo, optional_naira_input_to_kobo,
  date_input_to_iso, GoalFormFields, GoalValues, bad_due_date, goal_form_validation_error,
  build_goal_fields, build_update_goal_payload, goal_to_form_fields,
}
use stead.Client.RoundTrip.{naira_input_to_kobo-shown}
use stead.Client.Saved.{build_update_goal_payload-saved}

abbrev typed : GoalFormFields
typed = record {
  name = codes " House ";
  amount_naira = codes "1,500.5";
  due_on = codes "2027-02-28";
  monthly_income_naira = [];
}

abbrev house : GoalValues
house = record {
  name = codes "House";
  amount_total_kobo = 150_050;
  due_date = codes "2027-02-28T12:00:00.000Z";
  monthly_income_kobo = none;
}

shows : kobo_to_naira_input 150_050 ≡ codes "1500.50"
unfolding kobo_to_naira_input show digits
shows = refl

refuses :
    goal_form_validation_error (record typed { due_on = codes "2027-02-30" }) ≡ some bad_due_date
unfolding goal_form_validation_error naira_input_to_kobo normalized date_input_to_iso iso_date split
    number_from trim trim_start trim_end
refuses = refl

naira_input_to_kobo-shown_example : naira_input_to_kobo (kobo_to_naira_input 150_050) ≡ some 150_050
naira_input_to_kobo-shown_example = naira_input_to_kobo-shown 150_050 (omega arith) (omega arith)

build_update_goal_payload-saved_example :
    build_update_goal_payload (goal_to_form_fields house) ≡ some house
unfolding build_goal_fields goal_form_validation_error naira_input_to_kobo normalized
    date_input_to_iso optional_naira_input_to_kobo iso_date split number_from trim trim_start
    trim_end
build_update_goal_payload-saved_example = build_update_goal_payload-saved typed house refl
