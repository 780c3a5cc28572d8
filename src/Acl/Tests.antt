-- ===== src/Acl/Tests.antt =====
-- An administrator removes another operator and then tries to remove itself; the theorem at that run.
use kraken_ui.Common.{
  ◌<◌, arith, ◌==◌, ◌≡◌, refl, none, List, [], ◌∷◌, Text, codes, text_eq, statement, select_one,
  update_where, delete_where, count_where, byte_len, trim, to_ascii_lowercase,
}
use kraken_ui.Roles.{parse}
use kraken_ui.Models.{Operator}
use kraken_ui.Sessions.{delete_by_user_id}
use kraken_ui.Operators.{find_by_id, record_reauthenticated, delete_by_id}
use kraken_ui.Mfa.{is_enabled, totp_row}
use kraken_ui.Handlers.{
  World, in_db, in_session, try_sessions, try_session, plain_text, secret_has_rejected_markup,
  is_well_formed,
}
use kraken_ui.Auth.{
  session_i64, set_i64, mark_reauthenticated, reauthenticated_within, guard, guarded,
  authorized_role, authenticated_role, rotate_session_id_if_due,
}
use kraken_ui.Auth.Tests.{MapSession, state, view, ann, signed_in}
use kraken_ui.StepUp.{verify, authenticated_user_id}
use kraken_ui.StepUp.Tests.{a_request}
use kraken_ui.Policy.{parse_i32}
use kraken_ui.Acl.{delete_user_action, stepped_up, find_by_i32}
use kraken_ui.Acl.Requests.{Visit, deletes, routed, visited, visited_all}
use kraken_ui.Acl.Remains.{HasAdministrator, visited_all-HasAdministrator}

abbrev bob : Operator
bob = record ann {
  id_user = 2;
  username = codes "bob";
  email = codes "bob@example.test";
  operator_type = codes "auditor";
}

abbrev two_operators : World MapSession
two_operators = record signed_in {
  db = record {
    tables = record signed_in.db.tables { operators = ann ∷ bob ∷ []; next_user = 3 };
    outages = [];
  };
}

abbrev removes : Text → Visit MapSession
removes identity = record {
  session = signed_in.session;
  request = a_request;
  submission = deletes (record {
    user_identity = identity;
    current_password = codes "secret";
    mfa_code = [];
    csrf_token = codes "dG9rZW4=";
  });
}

abbrev two_visits : List (Visit MapSession)
two_visits = removes (codes "2") ∷ removes (codes "1") ∷ []

-- The other row is gone, and the own one stays.
bob_removed :
    select_one
      (λ o. o.id_user == 2)
      (visited_all state two_visits two_operators).db.tables.operators
    ≡ none
unfolding visited_all visited routed guard guarded authorized_role authenticated_role session_i64
    in_session in_db find_by_id statement select_one text_eq parse rotate_session_id_if_due
    delete_user_action is_well_formed byte_len plain_text trim to_ascii_lowercase parse_i32
    find_by_i32 authenticated_user_id stepped_up verify secret_has_rejected_markup is_enabled
    totp_row record_reauthenticated update_where mark_reauthenticated reauthenticated_within set_i64
    delete_by_id delete_where count_where try_sessions delete_by_user_id try_session
bob_removed = refl

visited_all-HasAdministrator_example :
    HasAdministrator (visited_all state two_visits two_operators).db.tables
unfolding select_one parse text_eq
visited_all-HasAdministrator_example =
    visited_all-HasAdministrator state view two_visits two_operators
      (1, ((two_ids, (ann, refl, refl))))
  where
    two_ids : (1 < 3) × ((2 < 3) × Unit {0})
    two_ids = (omega arith, (omega arith, tt))
