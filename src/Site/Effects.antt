-- ===== src/Site/Effects.antt =====
-- What the handler of each route does to the database.
use blogengine.Prelude.{◌≡◌, refl, sym, true, false, inl, inr, arith, Bool-cases}
use mathlib.Core.Path.{subst}
use blogengine.Middleware.Handler.{HttpRequest}
use blogengine.Router
use blogengine.Router.{Route, is_guarded}
use blogengine.Site.{State, Site, request_of}
use blogengine.Site.Dispatch.{dispatch}
use blogengine.Handlers.Pages.{handle_about, handle_contact, handle_terms, handle_privacy}
use blogengine.Site.Forms.{
  Visit, reads, handle_login_db, handle_logout_db, handle_register_page_db, handle_login_page_db,
  handle_home_db, handle_blog_db, handle_post_db, not_found_db, handle_register-Visit,
  handle_comment-Visit, handle_delete_comment-Visit,
}

module _ {S L B T : Type 0} (site : Site S L B T) where
  -- the routes that authStack does not wrap only read the database
  pub dispatch_reads :
      (to : Route) (r : HttpRequest) (s : State S L B T)
      → is_guarded to ≡ false
      → (dispatch site to r s).state.db ≡ s.db
  unfolding dispatch handle_about handle_contact handle_terms handle_privacy
  dispatch_reads Router.static_redirect r s h = refl
  dispatch_reads Router.static_files r s h = refl
  dispatch_reads Router.metrics r s h = refl
  dispatch_reads Router.healthz r s h = refl
  dispatch_reads Router.asset r s h = refl
  dispatch_reads Router.register_page r s h =
      handle_register_page_db site.blog_handler s.db s.session
  dispatch_reads Router.login_page r s h = handle_login_page_db site.blog_handler s.db s.session
  dispatch_reads Router.home r s h =
      handle_home_db site.blog_handler (site.first_call r) (site.second_call r) s.db s.session
  dispatch_reads Router.blog r s h =
      handle_blog_db site.blog_handler (request_of site r) (site.first_call r) (site.second_call r)
        s.db s.session
  dispatch_reads Router.post r s h =
      handle_post_db site.blog_handler (request_of site r) (site.first_call r) (site.second_call r)
        s.db s.session
  dispatch_reads Router.about r s h = refl
  dispatch_reads Router.privacy r s h = refl
  dispatch_reads Router.terms r s h = refl
  dispatch_reads Router.contact r s h = refl
  dispatch_reads Router.not_found r s h = not_found_db site.blog_handler s.db s.session
  dispatch_reads Router.register_form r s h = absurd (ground (arith, h))
  dispatch_reads Router.login_form r s h = absurd (ground (arith, h))
  dispatch_reads Router.logout_form r s h = absurd (ground (arith, h))
  dispatch_reads Router.comment_form r s h = absurd (ground (arith, h))
  dispatch_reads Router.comment_delete r s h = absurd (ground (arith, h))

  form-Visit :
      (to : Route) (r : HttpRequest) (s : State S L B T)
      → is_guarded to ≡ true
      → Visit s.db (dispatch site to r s).state.db
  unfolding dispatch
  form-Visit Router.register_form r s h =
      handle_register-Visit site.blog_handler (request_of site r) (site.first_call r) s.db s.session
  form-Visit Router.login_form r s h =
      subst (Visit s.db)
        (sym (
          handle_login_db site.blog_handler (request_of site r) (site.first_call r) s.db s.session))
        reads
  form-Visit Router.logout_form r s h =
      subst (Visit s.db) (sym (handle_logout_db site.blog_handler s.db s.session)) reads
  form-Visit Router.comment_form r s h =
      handle_comment-Visit site.blog_handler (request_of site r) (site.first_call r)
        (site.second_call r) s.db s.session
  form-Visit Router.comment_delete r s h =
      handle_delete_comment-Visit site.blog_handler (request_of site r) (site.first_call r) s.db
        s.session
  form-Visit _ r s h = absurd (ground (arith, h))

  -- every handler
  pub dispatch-Visit :
      (to : Route) (r : HttpRequest) (s : State S L B T)
      → Visit s.db (dispatch site to r s).state.db
  dispatch-Visit to r s = elim (Bool-cases (is_guarded to)) [
    | inl e ↦ form-Visit to r s e
    | inr e ↦ subst (Visit s.db) (sym (dispatch_reads to r s e)) reads
  ]
