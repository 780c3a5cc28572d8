-- ===== src/Mfa/Confirm/Codes.antt =====
-- The recovery codes that src/models/operator_mfa_repository.rs mints: each sealed in a row of its own
-- that is unused, in place of all the old rows of the account.
use kraken_ui.Common.{
  ℕ, zero, suc, ◌≡◌, refl, sym, ◌∙◌, subst, ap, ap₂, true, false, Bool, not, List, [], ◌∷◌, ◌++◌,
  Text, ◌==◌, arith, length, any, Result, ok, err, Db, lift, bind-ok, statement, statement-ok,
  execute, execute-ok, pure-ok, lift-ok, delete_where, select_all, append_assoc, append-nil,
  select_all-append, select_all-delete, select_all-delete_same, if◌then◌else◌,
}
use kraken_ui.Models.{RecoveryRow, Tables, Moment}
use kraken_ui.Operators.{PasswordCrypto, has_id}
use kraken_ui.Mfa.{
  generate_recovery_code, recovery_domain, new_code, code_added, insert_code, mint_codes,
  recovery_code_count, replace_recovery_codes_in, code_of_user,
}

-- The rows hold the codes, one by one, sealed for the account, and none is used.
abbrev pub IsSealed : PasswordCrypto → ℕ → List Text → List RecoveryRow → Type 0
IsSealed crypto id [] [] = Unit
IsSealed crypto id [] (row ∷ rows) = ⊥
IsSealed crypto id (code ∷ codes) [] = ⊥
IsSealed crypto id (code ∷ codes) (row ∷ rows) =
    (crypto.encrypt_secret id recovery_domain code ≡ ok row.encrypted_code)
    × (row.id_user ≡ id)
    × (row.used ≡ 0)
    × IsSealed crypto id codes rows

-- What stands after codes were minted for an account.
pub record Minted (crypto : PasswordCrypto) (id : ℕ) (codes : List Text) (before after : Tables)
    : Type 0 where
  pub same_operators : after.operators ≡ before.operators
  pub same_totp : after.totp ≡ before.totp
  pub rows : List RecoveryRow
  pub appended : after.recovery ≡ before.recovery ++ rows
  pub sealed_rows : IsSealed crypto id codes rows

added_when :
    (b : Bool) (t t' : Tables) {u : Unit {0}}
    → ◌≡◌ {A = Result (Tables × Unit {0})}
        (if b then ok (t, tt) else err "constraint failed")
        (ok (t', u))
    → (b ≡ true) × (t' ≡ t)
added_when true t t' e = (refl, cc)
added_when false t t' e = cc

module _ (crypto : PasswordCrypto) (id : ℕ) where
  own_rows :
      (codes : List Text) (rows : List RecoveryRow)
      → IsSealed crypto id codes rows
      → select_all (code_of_user id) rows ≡ rows
  unfolding select_all
  own_rows [] [] h = refl
  own_rows [] (row ∷ rows) h = absurd h
  own_rows (code ∷ codes) [] h = absurd h
  own_rows (code ∷ codes) (row ∷ rows) (is, own, fresh, rest) =
      let later = own_rows codes rows rest in
      let here : (row.id_user == id) ≡ true = ground arith in rw (here, later) refl

  no_others :
      (codes : List Text) (rows : List RecoveryRow)
      → IsSealed crypto id codes rows
      → select_all (λ r. not (code_of_user id r)) rows ≡ []
  unfolding select_all
  no_others [] [] h = refl
  no_others [] (row ∷ rows) h = absurd h
  no_others (code ∷ codes) [] h = absurd h
  no_others (code ∷ codes) (row ∷ rows) (is, own, fresh, rest) =
      let later = no_others codes rows rest in
      let here : (row.id_user == id) ≡ true = ground arith in rw (here, later) refl

module _ (crypto : PasswordCrypto) (m : Moment) (id : ℕ) (randoms : ℕ → List ℕ) where
  one_more :
      (code s : Text) (codes : List Text) (before mid after : Tables)
      → crypto.encrypt_secret id recovery_domain code ≡ ok s
      → mid ≡ code_added id s m before
      → Minted crypto id codes mid after
      → Minted crypto id (code ∷ codes) before after
  one_more code s codes before mid after is e minted = record {
    same_operators = minted.same_operators ∙ ap (λ (t : Tables). t.operators) e;
    same_totp = minted.same_totp ∙ ap (λ (t : Tables). t.totp) e;
    rows = new_code id s m before.next_code ∷ minted.rows;
    appended =
        minted.appended
        ∙ ap (λ (t : Tables). t.recovery ++ minted.rows) e
        ∙ append_assoc before.recovery (new_code id s m before.next_code ∷ []) minted.rows;
    sealed_rows = (is, refl, refl, minted.sealed_rows);
  }

  pub mint_codes-ok :
      (n : ℕ) (db to : Db Tables) (codes : List Text)
      → mint_codes crypto m id randoms n db ≡ (ok codes, to)
      → Minted crypto id codes db.tables to.tables × (length codes ≡ n)
  unfolding mint_codes
  mint_codes-ok zero db to codes e =
      let (here, is) = pure-ok {A = List Text} [] db e in
      let none_made : Minted crypto id [] db.tables db.tables = record {
        same_operators = refl;
        same_totp = refl;
        rows = [];
        appended = sym (append-nil db.tables.recovery);
        sealed_rows = tt;
      } in
      (
        subst (λ (c : List Text). Minted crypto id c db.tables to.tables) (sym is)
            (subst (λ (d : Db Tables). Minted crypto id [] db.tables d.tables) (sym here)
              none_made),
        ap length is,
      )
  mint_codes-ok (suc n) db to codes e =
      let code = generate_recovery_code (randoms n) in
      let (s, d1, sealed_now, rest) =
        bind-ok (lift (crypto.encrypt_secret id recovery_domain code)) _ db e in
      let (here, ok_is) = lift-ok (crypto.encrypt_secret id recovery_domain code) db sealed_now in
      let (u, d2, wrote, rest') = bind-ok (statement (insert_code id s m)) _ d1 rest in
      let (there, stored) =
        added_when (any (has_id id) d1.tables.operators) (code_added id s m d1.tables) d2.tables
          (statement-ok (insert_code id s m) d1 wrote) in
      let (others, d3, ran, answered) = bind-ok (mint_codes crypto m id randoms n) _ d2 rest' in
      let (same, is) = pure-ok {A = List Text} (code ∷ others) d3 answered in
      let (minted, count) = mint_codes-ok n d2 d3 others ran in
      let more : Minted crypto id (code ∷ others) db.tables d3.tables =
        one_more code s others db.tables d2.tables d3.tables ok_is
          (stored ∙ ap (λ (d : Db Tables). code_added id s m d.tables) here) minted in
      (
        subst (λ (c : List Text). Minted crypto id c db.tables to.tables) (sym is)
            (subst (λ (d : Db Tables). Minted crypto id (code ∷ others) db.tables d.tables)
              (sym same) more),
        ap length is ∙ ap suc count,
      )

  -- A code can be minted for an account that is there alone.
  mint_codes-stands :
      (n : ℕ) (db to : Db Tables) (codes : List Text)
      → mint_codes crypto m id randoms (suc n) db ≡ (ok codes, to)
      → any (has_id id) db.tables.operators ≡ true
  unfolding mint_codes
  mint_codes-stands n db to codes e =
      let code = generate_recovery_code (randoms n) in
      let (s, d1, sealed_now, rest) =
        bind-ok (lift (crypto.encrypt_secret id recovery_domain code)) _ db e in
      let (here, ok_is) = lift-ok (crypto.encrypt_secret id recovery_domain code) db sealed_now in
      let (u, d2, wrote, rest') = bind-ok (statement (insert_code id s m)) _ d1 rest in
      let (there, stored) =
        added_when (any (has_id id) d1.tables.operators) (code_added id s m d1.tables) d2.tables
          (statement-ok (insert_code id s m) d1 wrote) in
      ap (λ (d : Db Tables). any (has_id id) d.tables.operators) (sym here) ∙ there

  -- What a replacement of an account's codes leaves: its rows are the new codes, the other accounts'
  -- rows and the other tables are as they were.
  pub record Replaced (codes : List Text) (before after : Tables) : Type 0 where
    pub stands : any (has_id id) before.operators ≡ true
    pub same_operators : after.operators ≡ before.operators
    pub same_totp : after.totp ≡ before.totp
    pub own : IsSealed crypto id codes (select_all (code_of_user id) after.recovery)
    pub others :
        select_all (λ r. not (code_of_user id r)) after.recovery
        ≡ select_all (λ r. not (code_of_user id r)) before.recovery

  pub replace_recovery_codes_in-Replaced :
      (db to : Db Tables) (codes : List Text)
      → replace_recovery_codes_in crypto m id randoms db ≡ (ok codes, to)
      → Replaced codes db.tables to.tables × (length codes ≡ 10)
  unfolding replace_recovery_codes_in
  replace_recovery_codes_in-Replaced db to codes e =
      let p = code_of_user id in
      let q : RecoveryRow → Bool = λ r. not (code_of_user id r) in
      let clear : Tables → Tables = λ t. record t { recovery = delete_where p t.recovery } in
      let (u, mid, wrote, ran) = bind-ok (execute clear) _ db e in
      let cleared = execute-ok clear db wrote in
      let (minted, count) = mint_codes-ok recovery_code_count mid to codes ran in
      let all_rows : to.tables.recovery ≡ delete_where p db.tables.recovery ++ minted.rows =
        minted.appended ∙ ap (λ (t : Tables). t.recovery ++ minted.rows) cleared in
      let own : select_all p to.tables.recovery ≡ minted.rows =
        ap (select_all p) all_rows
        ∙ select_all-append p (delete_where p db.tables.recovery) minted.rows
        ∙ ap₂ ◌++◌ (select_all-delete_same p db.tables.recovery)
            (own_rows crypto id codes minted.rows minted.sealed_rows) in
      let others : select_all q to.tables.recovery ≡ select_all q db.tables.recovery =
        ap (select_all q) all_rows
        ∙ select_all-append q (delete_where p db.tables.recovery) minted.rows
        ∙ ap₂ ◌++◌
            (select_all-delete p q
              (λ (r : RecoveryRow) (h : not (r.id_user == id) ≡ true). ground arith)
              db.tables.recovery)
            (no_others crypto id codes minted.rows minted.sealed_rows)
        ∙ append-nil (select_all q db.tables.recovery) in
      (
        record {
          stands =
              ap (λ (t : Tables). any (has_id id) t.operators) (sym cleared)
              ∙ mint_codes-stands 9 mid to codes ran;
          same_operators = minted.same_operators ∙ ap (λ (t : Tables). t.operators) cleared;
          same_totp = minted.same_totp ∙ ap (λ (t : Tables). t.totp) cleared;
          own = subst (IsSealed crypto id codes) (sym own) minted.sealed_rows;
          others = others;
        },
        count,
      )
