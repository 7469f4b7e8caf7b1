-- ===== src/Server/Accounts.antt =====
-- Deleted and disabled accounts have no sessions.
use trade_post.Base.{
  ℕ, ◌≡◌, ◌≢◌, ◌⊎◌, refl, ◌∙◌, sym, String, true, false, not, Option, some, List, [], ◌∷◌, map,
  arith, eq_iff, if◌then◌else◌, find_first, keep_if, Option-cases, inl, inr,
}
use trade_post.Persistence.{Database, UserRow, SessionRow}
use trade_post.Persistence.Users.{
  has_user_id, get_user_by_id, get_active_session, update_user_row, update_user_role_status,
  delete_user_row, insert_event, given, revoke_all_sessions_for_user,
}
use trade_post.Security.{
  Answer, answer, http_error, Identity, is_active, resolve_session, require_role,
}
use trade_post.Server.{Request, guarded, update_user, delete_user, admins}

-- Nobody but another user than this one can be found by an id.
abbrev IsAbsent : String → List UserRow → Type 0
IsAbsent uid us =
    (i : String) (u : UserRow)
    → find_first (has_user_id i) us ≡ some u
    → (u.id ≢ uid) ⊎ (u.account_status ≡ "disabled")

deleted-IsAbsent :
    (uid : String) (us : List UserRow) → IsAbsent uid (keep_if (λ u. not (has_user_id uid u)) us)
unfolding keep_if find_first
deleted-IsAbsent uid [] i u e = absurd (ground arith)
deleted-IsAbsent uid (x ∷ us) i u e = ground (arith, deleted-IsAbsent uid us i u, eq_iff x.id uid)

module _ (now : ℕ) (uid : String) (rank : Option String) where
  abbrev disable : UserRow → UserRow
  disable u = record u {
    role = given rank u.role;
    account_status = "disabled";
    updated_at = some now;
  }

  disabled-IsAbsent :
      (us : List UserRow) → IsAbsent uid (map (λ u. if has_user_id uid u then disable u else u) us)
  unfolding find_first
  disabled-IsAbsent [] i u e = absurd (ground arith)
  disabled-IsAbsent (x ∷ us) i u e = ground (arith, disabled-IsAbsent us i u, eq_iff x.id uid)

disabled-inactive : (u : UserRow) → u.account_status ≡ "disabled" → is_active u ≡ false
unfolding is_active
disabled-inactive u h = rw (h, is_active) refl

IsAbsent-resolve :
    (uid sid : String) (db : Database) (seen checked : ℕ) (who : Identity)
    → IsAbsent uid db.users
    → resolve_session seen checked sid db ≡ some who
    → who.user_id ≢ uid
unfolding resolve_session get_user_by_id is_active
IsAbsent-resolve uid sid db seen checked who gone e =
    elim (Option-cases (get_active_session seen sid db)) [
      | inl nothing ↦ absurd (ground arith)
      | inr (s, es) ↦ elim (Option-cases (get_user_by_id s.user_id db)) [
        | inl nobody ↦ absurd (ground arith)
        | inr (u, eu) ↦
            let (same, active) = facts s u es eu in
            λ k. expelled u (gone s.user_id u eu) (sym same ∙ k) active
      ]
    ]
  where
    facts :
        (s : SessionRow) (u : UserRow)
        → get_active_session seen sid db ≡ some s
        → get_user_by_id s.user_id db ≡ some u
        → (who.user_id ≡ u.id) × (is_active u ≡ true)
    facts s u es eu = ground arith

    expelled :
        (u : UserRow)
        → (u.id ≢ uid) ⊎ (u.account_status ≡ "disabled")
        → u.id ≡ uid
        → is_active u ≡ true
        → ⊥
    expelled u (inl other) k active = other k
    expelled u (inr off) k active = ground (arith, disabled-inactive u off)

-- What a handler behind a role has done where it answers.
guarded_answers :
    {A : Type 0} (roles : List String) (r : Request) (db : Database)
    (body : Identity → Answer A × Database) (a : A)
    → (guarded roles r db body).0 ≡ answer a
    → (who : Identity) × (guarded roles r db body ≡ body who)
unfolding guarded
guarded_answers roles r db body a e = checked (require_role roles r.seen r.checked r.cookie db) refl
  where
    checked :
        (q : Answer Identity)
        → require_role roles r.seen r.checked r.cookie db ≡ q
        → (who : Identity) × (guarded roles r db body ≡ body who)
    checked (http_error code) f = absurd (ground arith)
    checked (answer who) f = (who, rw (f, guarded) (ground arith))

deleted_users :
    (r : Request) (uid : String) (db : Database)
    → (delete_user r uid db).0 ≡ answer true
    → (delete_user r uid db).1.users ≡ keep_if (λ u. not (has_user_id uid u)) db.users
unfolding delete_user delete_user_row insert_event revoke_all_sessions_for_user
deleted_users r uid db done =
    let (by, same) = guarded_answers admins r db _ true done in ground (arith, same)

-- After an administrator's deletion of a user that the handler confirms, no session resolves to
-- that user.
pub delete_user_expels :
    (r : Request) (uid sid : String) (db : Database) (seen checked : ℕ) (who : Identity)
    → (delete_user r uid db).0 ≡ answer true
    → resolve_session seen checked sid (delete_user r uid db).1 ≡ some who
    → who.user_id ≢ uid
delete_user_expels r uid sid db seen checked who done e =
    IsAbsent-resolve uid sid _ seen checked who
      (rw (deleted_users r uid db done) (deleted-IsAbsent uid db.users)) e

disabled_users :
    (r : Request) (uid : String) (rank : Option String) (db : Database)
    → (update_user r uid rank (some "disabled") db).0 ≡ answer true
    → (update_user r uid rank (some "disabled") db).1.users
      ≡ map (λ u. if has_user_id uid u then disable r.now uid rank u else u) db.users
unfolding update_user update_user_role_status update_user_row insert_event
disabled_users r uid rank db done =
    let (by, same) = guarded_answers admins r db _ true done in ground (arith, same)

-- After an administrator has disabled a user, whatever role it was given, no session resolves to
-- that user.
update_user_expels :
    (r : Request) (uid sid : String) (rank : Option String) (db : Database) (seen checked : ℕ)
    (who : Identity)
    → (update_user r uid rank (some "disabled") db).0 ≡ answer true
    → resolve_session seen checked sid (update_user r uid rank (some "disabled") db).1 ≡ some who
    → who.user_id ≢ uid
update_user_expels r uid sid rank db seen checked who done e =
    IsAbsent-resolve uid sid _ seen checked who
      (rw (disabled_users r uid rank db done) (disabled-IsAbsent r.now uid rank db.users)) e
