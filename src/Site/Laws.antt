-- ===== src/Site/Laws.antt =====
-- What the requests of visitors can do to the database, through the whole stack of the router.
use blogengine.Prelude.{
  ◌≡◌, refl, sym, ap, ◌∙◌, Bool, true, false, inl, inr, List, [], ◌∷◌, some, arith, Bool-cases,
}
use mathlib.Core.Path.{subst}
use blogengine.Prelude.Int.{ℤ, ◌==ℤ◌, ==ℤ_iff}
use blogengine.Prelude.Text.{Text}
use blogengine.Sqlite.Database.{Db, Call}
use blogengine.Sqlite.Users.{create_user}
use blogengine.Sqlite.Comments.{create_comment, delete_comment}
use blogengine.Sqlite.Invariant.WellFormed.{IsWellFormed}
use blogengine.Sqlite.Invariant.Users.{create_user-IsWellFormed}
use blogengine.Sqlite.Invariant.Comments.{create_comment-IsWellFormed, delete_comment-IsWellFormed}
use blogengine.Sqlite.Accounts.{
  Account, Directory, directory, put, Request, register, no_request, Change, idle, registers,
  rehashes, closes,
}
use blogengine.Sqlite.Accounts.Refinement.{same_users, create_user-Change}
use blogengine.Sqlite.Accounts.Store.{create_comment_users, delete_comment_users}
use blogengine.Middleware.Handler.{HttpRequest}
use blogengine.Router.{is_get, is_guarded, root_route, segments}
use blogengine.Router.Laws.{not_get, forms_take_post}
use blogengine.Site.{State, Site}
use blogengine.Site.Dispatch.{dispatch, serve_request, serve_all}
use blogengine.Site.Forms
use blogengine.Site.Forms.{Visit}
use blogengine.Site.Effects.{dispatch_reads, dispatch-Visit}
use blogengine.Site.Stack.{Passes, serve-PassedOn}

-- Every account is there with its name and its hash.
abbrev pub KeepsAccounts : Db → Db → Type 0
KeepsAccounts db db' = (k : ℤ) (a : Account) → directory db k ≡ some a → directory db' k ≡ some a

abbrev adds_only : Request → Bool
adds_only (register n h) = true
adds_only no_request = true
adds_only _ = false

Change-keeps :
    {q : Request} {d d' : Directory} (k : ℤ) (a : Account)
    → adds_only q ≡ true
    → Change q d d'
    → d k ≡ some a
    → d' k ≡ some a
unfolding put
Change-keeps k a q idle h = h
Change-keeps {d = d} k a q (registers j b fresh free) h = elim (Bool-cases (k ==ℤ j)) [
  | inl e ↦ absurd (ground (arith, fresh, h, ap d ((==ℤ_iff k j).0 e)))
  | inr e ↦ rw e h
]
Change-keeps k a q (rehashes j b hash there) h = absurd (ground (arith, q))
Change-keeps k a q (closes j b there) h = absurd (ground (arith, q))

-- What a visit keeps.
abbrev pub Keeps : Db → Db → Type 0
Keeps db db' =
    IsWellFormed db' × (db'.blogs ≡ db.blogs) × (db'.posts ≡ db.posts) × KeepsAccounts db db'

create_user_rest :
    (n h : Text) (c : Call) (db : Db)
    → ((create_user n h c db).1.blogs ≡ db.blogs) × ((create_user n h c db).1.posts ≡ db.posts)
unfolding create_user
create_user_rest n h c db = ground arith

create_comment_rest :
    (p u : ℤ) (t : Text) (c : Call) (db : Db)
    → ((create_comment p u t c db).1.blogs ≡ db.blogs)
      × ((create_comment p u t c db).1.posts ≡ db.posts)
unfolding create_comment
create_comment_rest p u t c db = ground arith

delete_comment_rest :
    (k u : ℤ) (c : Call) (db : Db)
    → ((delete_comment k u c db).1.blogs ≡ db.blogs)
      × ((delete_comment k u c db).1.posts ≡ db.posts)
unfolding delete_comment
delete_comment_rest k u c db = ground arith

same_accounts : (db db' : Db) → db'.users ≡ db.users → KeepsAccounts db db'
same_accounts db db' e k a = Change-keeps {q = no_request} k a refl (same_users db db' e)

visit-Keeps : {db db' : Db} → IsWellFormed db → Visit db db' → Keeps db db'
visit-Keeps w Forms.reads = (w, refl, refl, λ k a h. h)
visit-Keeps {db} w (Forms.registers n hash c) = (
  create_user-IsWellFormed n hash c db w,
  (create_user_rest n hash c db).0,
  (create_user_rest n hash c db).1,
  λ k a h. Change-keeps {q = register n hash} k a refl (create_user-Change n hash c db w) h,
)
visit-Keeps {db} w (Forms.comments p u t c) = (
  create_comment-IsWellFormed p u t c db w,
  (create_comment_rest p u t c db).0,
  (create_comment_rest p u t c db).1,
  same_accounts db (create_comment p u t c db).1 (create_comment_users p u t c db),
)
visit-Keeps {db} w (Forms.deletes k u c) = (
  delete_comment-IsWellFormed k u c db w,
  (delete_comment_rest k u c db).0,
  (delete_comment_rest k u c db).1,
  same_accounts db (delete_comment k u c db).1 (delete_comment_users k u c db),
)

get_reads :
    (method : Text) (segs : List Text)
    → is_get method ≡ true
    → is_guarded (root_route method segs) ≡ false
get_reads method segs h = elim (Bool-cases (is_guarded (root_route method segs))) [
  | inl e ↦ absurd (ground (arith, h, not_get method ((forms_take_post method segs).0 e)))
  | inr e ↦ e
]

module _ {S L B T : Type 0} (site : Site S L B T) (sessions : Passes site.sessions)
    (csrf : Passes site.csrf) where
  serve-Visit : (r : HttpRequest) (s : State S L B T) → Visit s.db (serve_request site r s).state.db
  serve-Visit r s =
      let to = root_route r.method (segments r.path) in
      elim (serve-PassedOn site sessions csrf r s) [
        | inl e ↦ subst (Visit s.db) (sym e) Forms.reads
        | inr (s', (same, e)) ↦ subst (Visit s.db) (sym e) (
            subst (λ db. Visit db (dispatch site to r s').state.db) same
              (dispatch-Visit site to r s'))
      ]

  -- A request with GET or HEAD changes nothing in the database, whatever its path, its form values and
  -- its session are. (The middlewares of the session and of CSRF pass a request on with the database
  -- as it is, or answer it themselves.)
  pub pages_only_read :
      (r : HttpRequest) (s : State S L B T)
      → is_get r.method ≡ true
      → (serve_request site r s).state.db ≡ s.db
  pages_only_read r s h =
      let to = root_route r.method (segments r.path) in
      elim (serve-PassedOn site sessions csrf r s) [
        | inl e ↦ e
        | inr (s', (same, e)) ↦
            e ∙ (dispatch_reads site to r s' (get_reads r.method (segments r.path) h) ∙ same)
      ]

  -- Whatever visitors send, in any number of requests one after another, the database stays well
  -- formed, no blog and no post changes, and every account stays as it is, with its name and its hash
  -- of the password: a visitor can add an account, and add or delete comments. (The middlewares of the
  -- session and of CSRF pass a request on with the database as it is, or answer it themselves.)
  pub visitors-Keeps :
      (rs : List HttpRequest) (s : State S L B T)
      → IsWellFormed s.db
      → Keeps s.db (serve_all site rs s).db
  unfolding serve_all
  visitors-Keeps [] s w = (w, refl, refl, λ k a h. h)
  visitors-Keeps (r ∷ rs) s w =
      let (w', blogs, posts, accounts) = visit-Keeps w (serve-Visit r s) in
      let (w'', blogs', posts', accounts') = visitors-Keeps rs (serve_request site r s).state w' in
      (w'', blogs' ∙ blogs, posts' ∙ posts, λ k a h. accounts' k a (accounts k a h))
