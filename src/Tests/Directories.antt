-- ===== src/Tests/Directories.antt =====
-- The theorems on the directory and on the classifier at concrete rows and lines.
use loboguara.Common.{
  ◌≤◌, ◌≡◌, refl, arith, String, str_eq, if◌then◌else◌, Bool, Option, true, none, some, List, [],
  ◌∷◌, ok, keep, length,
}
use loboguara.Common.Text.{◌⧺◌, text_length}
use loboguara.Models.{Contact, end, Uuid, field, text, array, cons, nil, object, Fields, entry}
use loboguara.World.{World}
use loboguara.Directory.Paging.{sort_by}
use loboguara.Directory.Contacts.{ContactCreate, create_contact, delete_contact, contact_before}
use loboguara.Directory.Integrity.{
  unedited, edited, contact_created, contact_deleted, references_survive,
}
use loboguara.Directory.References.{Referential}
use loboguara.Directory.Membership.{
  MemberCall, adds, deletes, relation, run_calls, meanings, run_calls_refines,
}
use loboguara.Directory.Listing.{read_pages, read_pages_all}
use loboguara.Classifier.Severities.{is_severity, classify_log_line-severity}
use loboguara.Classifier.Lines.{classify_log_line}
use loboguara.Classifier.Words.{title_from_text}
use loboguara.Classifier.Titles.{title_from_text-bound}
use loboguara.Escalation.{usable, read_policy}
use loboguara.Escalation.Accepted.{
  valid_fallback_policy, uuid_of_text, is_text, accepted_policy_usable,
}
use loboguara.Tests.Worlds.{test_env, world_with}

abbrev new_contact : ContactCreate
new_contact = record {
  name = "Bia";
  email = none;
  phone = none;
  whatsapp = none;
  telegram_id = none;
}

abbrev office : World
office = record (world_with [] []) {
  db = record (world_with [] []).db {
    groups = record { id = 4; name = "ops"; description = none } ∷ [];
  };
}

abbrev with_bia : World
with_bia = (create_contact new_contact office).1

abbrev without_bia : World
without_bia = (delete_contact (some 1000) with_bia).1

office-Referential : Referential office.db
office-Referential = record {
  of_members = ((refl, refl), tt);
  of_rules = (refl, tt);
  of_notifications = tt;
}

references_survive_example : Referential without_bia.db
references_survive_example =
    references_survive office without_bia
      (edited office with_bia without_bia
        (edited office office with_bia (unedited office) (contact_created new_contact office))
        (contact_deleted (some 1000) with_bia))
      office-Referential

abbrev two_calls : List MemberCall
two_calls = adds 4 5 ∷ deletes 4 5 ∷ []

run_calls_refines_example :
    relation (run_calls two_calls office) ≡ meanings two_calls (relation office)
run_calls_refines_example = run_calls_refines two_calls office ((refl, refl), ((refl, refl), tt))

read_pages_all_example :
    (read_pages test_env 1 2 office
      ≡ (ok (sort_by (contact_before test_env) office.contacts), office))
    × ((p : Contact → Bool)
        → length (keep p (sort_by (contact_before test_env) office.contacts))
          ≡ length (keep p office.contacts))
read_pages_all_example = read_pages_all test_env 1 2 office refl (omega arith)

classify_log_line-severity_example :
    is_severity (classify_log_line test_env "api" "fatal: disk full" end).0 ≡ true
classify_log_line-severity_example =
    classify_log_line-severity test_env "api" "fatal: disk full" end

title_from_text-bound_example :
    (rest : String) × (title_from_text "api log" "disk  full" ≡ "api log" ⧺ ": " ⧺ rest)
    × (1 ≤ text_length rest)
    × (text_length rest ≤ 120)
title_from_text-bound_example = title_from_text-bound "api log" "disk  full"

abbrev test_parse : String → Option Uuid
test_parse s = if str_eq s "4" then some 4 else none

abbrev test_policy : Fields
test_policy =
    field "escalation_group_id" (text "4") (field "channels" (array (cons (text "VOICE") nil)) end)

policy_accepted : valid_fallback_policy test_env test_parse test_policy ≡ true
unfolding valid_fallback_policy uuid_of_text entry
policy_accepted = refl

group_is_text : is_text (entry "escalation_group_id" test_policy) ≡ true
unfolding entry
group_is_text = refl

accepted_policy_usable_example :
    (group : Uuid) × (names : List String) × (read_policy test_parse (object test_policy)
      ≡ usable group names)
accepted_policy_usable_example =
    accepted_policy_usable test_env test_parse test_policy refl policy_accepted group_is_text
