-- ===== src/Handlers/Laws/Registration.antt =====
-- The registration form: what it needs, what it leaves, and that it leads to the login.
use blogengine.Prelude.{◌≡◌, refl, ap, ◌⊎◌, inl, inr, true, false, List, none, arith, Bool-cases}
use blogengine.Prelude.Text.{Text, codes}
use blogengine.Errors.{Sentinel, Result, ok, err, errors_is_unique_violation}
use blogengine.Storage.{User}
use blogengine.Sqlite.Table.{insert}
use blogengine.Sqlite.Database.{Db, Call, same_name, user_schema}
use blogengine.Sqlite.Query.{exec}
use blogengine.Sqlite.Users.{new_user, create_user}
use blogengine.Sqlite.Invariant.Rows.{Reply-cases}
use blogengine.Sqlite.Laws.FirstAccount.{create_user_inv, get_user-create_user}
use blogengine.Handlers.Web.{
  IsSessions, IsHashing, Request, BlogHandler, Outcome, redirect, user_id_key, internal_error,
  is_logged_in,
}
use blogengine.Handlers.Auth.{
  given_username, given_password, is_confirmed, is_too_short, has_invite, register_user,
  handle_register, handle_login,
}
use blogengine.Handlers.Laws.Login.{lookup_account, open_session_lem, handle_login_accepted}

create_user_error :
    (username password_hash : Text) (c : Call) (db : Db) {e : List Sentinel} {db' : Db}
    → create_user username password_hash c db ≡ (err e, db')
    → db' ≡ db
unfolding create_user
create_user_error username password_hash c db {e} {db'} h =
    elim (Reply-cases
      (exec c (insert user_schema (new_user c db username password_hash) true db.users))) [
        | inl (f, q) ↦ ground (arith, q)
        | inr (rows, q) ↦ absurd (ground (arith, q))
      ]

module _ {S : Type 0} (h : BlogHandler S) where
  -- An account was made for the form: it had the invite code if one is needed, the same password
  -- twice, and texts that are long enough.
  pub record IsRegistered (r : Request) (c : Call) (db : Db) (o : Outcome S) : Type 0 where
    pub invited : has_invite h r ≡ true
    pub confirmed : is_confirmed r ≡ true
    pub long : is_too_short r ≡ false
    pub hash : Text
    pub hashed : h.hashing.generate (given_password r) ≡ ok hash
    pub user : User
    pub created : create_user (given_username r) hash c db ≡ (ok user, o.db)
    pub response : o.response ≡ redirect (codes "/login")

  registered :
      (r : Request) (c : Call) (db : Db) (s : S)
      → has_invite h r ≡ true
      → is_confirmed r ≡ true
      → is_too_short r ≡ false
      → IsRegistered r c db (register_user h r c db s) ⊎ ((register_user h r c db s).db ≡ db)
  unfolding register_user internal_error
  registered r c db s invited confirmed long = hashed (h.hashing.generate (given_password r)) refl
    where
      created :
          (hash : Text)
          → h.hashing.generate (given_password r) ≡ ok hash
          → (t : Result User × Db) → create_user (given_username r) hash c db ≡ t
          → IsRegistered r c db (register_user h r c db s) ⊎ ((register_user h r c db s).db ≡ db)
      created hash g (ok u, db') q = inl (record {
        invited = invited;
        confirmed = confirmed;
        long = long;
        hash = hash;
        hashed = g;
        user = u;
        created = ground (arith, g, q);
        response = ground (arith, g, q);
      })
      created hash g (err e, db') q = inr (
          ground (
            arith,
            g,
            q,
            Bool-cases (errors_is_unique_violation e),
            create_user_error (given_username r) hash c db {e = e} {db' = db'} q,
          ))

      hashed :
          (t : Result Text)
          → h.hashing.generate (given_password r) ≡ t
          → IsRegistered r c db (register_user h r c db s) ⊎ ((register_user h r c db s).db ≡ db)
      hashed (err e) g = inr (ground (arith, g))
      hashed (ok hash) g = created hash g (create_user (given_username r) hash c db) refl

  -- HandleRegister either makes the account, which takes the invite code where one is needed, a
  -- password that was confirmed and texts of 3 and 8 bytes at least, or changes nothing.
  pub handle_register_cases :
      (r : Request) (c : Call) (db : Db) (s : S)
      → IsRegistered r c db (handle_register h r c db s) ⊎ ((handle_register h r c db s).db ≡ db)
  unfolding handle_register
  handle_register_cases r c db s = elim (Bool-cases (is_logged_in h s)) [
    | inl out ↦ inr (ground (arith, out))
    | inr out ↦ elim (Bool-cases (has_invite h r)) [
      | inr i ↦ inr (ground (arith, out, i))
      | inl i ↦ elim (Bool-cases (is_confirmed r)) [
        | inr p ↦ inr (ground (arith, out, i, p))
        | inl p ↦ elim (Bool-cases (is_too_short r)) [
          | inl l ↦ inr (ground (arith, out, i, p, l))
          | inr l ↦
              let passed : handle_register h r c db s ≡ register_user h r c db s =
                ground (arith, out, i, p, l) in
              rw passed (registered r c db s i p l)
        ]
      ]
    ]
  ]

  -- Who registered can log in with the name, in any case of its letters, and the password: the answer
  -- is the redirect to the home page, and the session holds the key of the new account. (The visitor
  -- has no session, and neither the driver nor the session manager meets an error.)
  pub login_after_register :
      (m : IsSessions h.sessions) (b : IsHashing h.hashing) (r r' : Request) (c later : Call)
      (db : Db) (s : S)
      → is_logged_in h s ≡ false
      → (h.sessions.renew_token s).0 ≡ none
      → later.fault ≡ none
      → same_name (given_username r) (given_username r') ≡ true
      → given_password r' ≡ given_password r
      → (g : IsRegistered r c db (handle_register h r c db s))
      → ((handle_login h r' later (handle_register h r c db s).db s).response
          ≡ redirect (codes "/"))
        × (h.sessions.get_int64 user_id_key
              (handle_login h r' later (handle_register h r c db s).db s).session
            ≡ g.user.id)
  login_after_register m b r r' c later db s out renews calm same typed g =
      let db' = (handle_register h r c db s).db in
      let made =
        (create_user_inv (given_username r) g.hash c db {u = g.user} {db' = db'} g.created).0 in
      let found =
        get_user-create_user (given_username r) g.hash (given_username r') c later db {u = g.user}
          {db' = db'} g.created same calm in
      let known = lookup_account (given_username r') later db' {u = g.user} (ap (λ x. x.0) found) in
      let right : h.hashing.compare g.user.password_hash (given_password r') ≡ true =
        rw (typed, ap (λ (x : User). x.password_hash) made)
          (b.compare-generate (given_password r) {hash = g.hash} g.hashed) in
      rw (handle_login_accepted h r' later db' s g.user out calm known right)
        (open_session_lem h m g.user (given_username r') db' s renews)
