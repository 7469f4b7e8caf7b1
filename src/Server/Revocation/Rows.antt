-- ===== src/Server/Revocation/Rows.antt =====
-- The table of sessions: a revoked session stays in it, revoked.
use trade_post.Base.{
  ℕ, ◌≡◌, refl, ◌∙◌, subst, String, true, false, none, some, List, [], ◌∷◌, ◌++◌, map, arith,
  eq_iff, if◌then◌else◌, any_of, find_first, Bool-cases, inl, inr,
}
use trade_post.Persistence.{Database, SessionRow}
use trade_post.Persistence.Users.{
  has_session_id, is_unrevoked, is_session_of, insert_session, revoke_session,
  revoke_all_sessions_for_user, get_active_session,
}
use trade_post.Security.{resolve_session}

-- The table has the session, and only revoked.
pub record IsRevoked (sid : String) (ss : List SessionRow) : Type 0 where
  pub known : any_of (has_session_id sid) ss ≡ true
  pub dead : find_first (is_unrevoked sid) ss ≡ none

module _ (sid : String) where
  known-append :
      (ss : List SessionRow) (s : SessionRow)
      → any_of (has_session_id sid) ss ≡ true
      → any_of (has_session_id sid) (ss ++ (s ∷ [])) ≡ true
  unfolding any_of
  known-append [] s h = ground arith
  known-append (x ∷ ss) s h = ground (arith, known-append ss s)

  dead-append :
      (ss : List SessionRow) (s : SessionRow)
      → find_first (is_unrevoked sid) ss ≡ none
      → has_session_id sid s ≡ false
      → find_first (is_unrevoked sid) (ss ++ (s ∷ [])) ≡ none
  unfolding find_first
  dead-append [] s h e = ground arith
  dead-append (x ∷ ss) s h e = ground (arith, dead-append ss s)

  other_id :
      (ss : List SessionRow) (s : SessionRow)
      → any_of (has_session_id sid) ss ≡ true
      → any_of (has_session_id s.id) ss ≡ false
      → has_session_id sid s ≡ false
  unfolding any_of
  other_id ss s k h = elim (Bool-cases (has_session_id sid s)) [
    | inr other ↦ other
    | inl same ↦ absurd (
        ground
          (arith, subst (λ i. any_of (has_session_id i) ss ≡ false) ((eq_iff s.id sid).0 same) h))
  ]

  IsRevoked-append :
      (s : SessionRow) (ss : List SessionRow)
      → any_of (has_session_id s.id) ss ≡ false
      → IsRevoked sid ss
      → IsRevoked sid (ss ++ (s ∷ []))
  IsRevoked-append s ss new h = record {
    known = known-append ss s h.known;
    dead = dead-append ss s h.dead (other_id ss s h.known new);
  }

  pub insert_session-IsRevoked :
      (s : SessionRow) (db : Database) {db' : Database}
      → IsRevoked sid db.sessions
      → insert_session s db ≡ some db'
      → IsRevoked sid db'.sessions
  unfolding insert_session
  insert_session-IsRevoked s db h e = ground (arith, IsRevoked-append s db.sessions)

  -- A change of rows that keeps ids and that revives nothing.
  map-IsRevoked :
      (f : SessionRow → SessionRow) (ss : List SessionRow)
      → ((s : SessionRow) → ((f s).id ≡ s.id))
      → ((s : SessionRow) → s.revoked ≡ true → (f s).revoked ≡ true)
      → (any_of (has_session_id sid) (map f ss) ≡ any_of (has_session_id sid) ss)
        × (find_first (is_unrevoked sid) ss ≡ none
            → find_first (is_unrevoked sid) (map f ss) ≡ none)
  unfolding any_of find_first
  map-IsRevoked f [] same dead = (refl, λ h. refl)
  map-IsRevoked f (x ∷ ss) same dead = ground (arith, map-IsRevoked f ss same dead, same x, dead x)

  pub revoke_session-IsRevoked :
      (i : String) (db : Database)
      → IsRevoked sid db.sessions
      → IsRevoked sid (revoke_session i db).sessions
  unfolding revoke_session
  revoke_session-IsRevoked i db h =
      let kept =
        map-IsRevoked (λ s. if has_session_id i s then record s { revoked = true } else s)
          db.sessions (λ s. ground arith) (λ s e. ground arith) in
      record { known = kept.0 ∙ h.known; dead = kept.1 h.dead }

  pub revoke_all-IsRevoked :
      (now : ℕ) (uid : String) (db : Database)
      → IsRevoked sid db.sessions
      → IsRevoked sid (revoke_all_sessions_for_user now uid db).sessions
  unfolding revoke_all_sessions_for_user
  revoke_all-IsRevoked now uid db h =
      let kept =
        map-IsRevoked
          (λ s.
            if is_session_of uid s then record s { revoked = true; revoked_at = some now } else s)
          db.sessions (λ s. ground arith) (λ s e. ground arith) in
      record { known = kept.0 ∙ h.known; dead = kept.1 h.dead }

  pub resolve-IsRevoked :
      (seen checked : ℕ) (db : Database)
      → IsRevoked sid db.sessions
      → resolve_session seen checked sid db ≡ none
  unfolding resolve_session get_active_session
  resolve-IsRevoked seen checked db h = ground (arith, h.dead)

revoke_all_of :
    (sid : String) (ss : List SessionRow)
    → find_first
        (is_unrevoked sid)
        (map (λ s. if has_session_id sid s then record s { revoked = true } else s) ss)
      ≡ none
unfolding find_first
revoke_all_of sid [] = refl
revoke_all_of sid (x ∷ ss) = ground (arith, revoke_all_of sid ss)

pub revoke_session_revokes :
    (sid : String) (db : Database)
    → any_of (has_session_id sid) db.sessions ≡ true
    → IsRevoked sid (revoke_session sid db).sessions
unfolding revoke_session
revoke_session_revokes sid db known =
    let kept =
      map-IsRevoked sid (λ s. if has_session_id sid s then record s { revoked = true } else s)
        db.sessions (λ s. ground arith) (λ s e. ground arith) in
    record { known = kept.0 ∙ known; dead = revoke_all_of sid db.sessions }
