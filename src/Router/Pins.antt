-- ===== src/Router/Pins.antt =====
-- The pins that the handler of src/router.rs leaves behind.
use codex_proxy_rs.Base.{
  false, [], Option, none, some, Str, ◌≡◌, ◌≢◌, refl, sym, subst, ◌∙◌, ◌⊎◌, In, inl, inr, ◌==◌,
  text_eq, ==_self, Bool-cases,
}
use codex_proxy_rs.Affinity.{Pin, IsReliable}
use codex_proxy_rs.Http.{Response}
use codex_proxy_rs.Pool.{Account, AccountPool}
use codex_proxy_rs.Pool.Pick.{pick-In, pick-some}
use codex_proxy_rs.Router.{
  RouterState, Turn, Source, from_pin, new, repinned, Backend, request_to, fallback_or_error,
  fallback_or_error_single, finish_repin, repin, fail_over, finish_primary, choose, route,
  maybe_pin, clear_pin, is_fallback, with_alternative, first_choice,
}
use codex_proxy_rs.Router.Attempt.{Fallback, body, no_body, Primary, terminal, retry, classify}
use codex_proxy_rs.Router.Attempts.{choose-In, cool-accounts}

module _ {S : Type 0} (env : Backend S) (turn : Turn) (key : Str)
    (keyed : turn.key ≡ some key) where
  abbrev pub pin_of : Account → Pin
  pin_of a = record { slug = a.slug; model = turn.model }

  -- The state of the pins after a run that began with the store `before`: the conversation is
  -- unpinned, or pinned to an account of the pool whose pod gave the final answer in this run; the
  -- pins of other conversations are as they were.
  pub record IsSettled (pool : AccountPool) (before : S) (after : Option S) : Type 0 where
    pub store : S
    pub stored : after ≡ some store
    pub own :
        (env.store.get store key ≡ none)
        ⊎ ((a : Account) × (r : Response) × In a pool.accounts
            × (env.store.get store key ≡ some (pin_of a))
            × (classify (env.send (request_to turn a)) ≡ terminal r))
    pub others : (j : Str) → (key == j) ≡ false → env.store.get store j ≡ env.store.get before j

  module _ (reliable : IsReliable env.store) where
    IsSettled-put :
        (pool : AccountPool) (before s : S) (a : Account) (r : Response)
        → ((j : Str) → (key == j) ≡ false → env.store.get s j ≡ env.store.get before j)
        → In a pool.accounts
        → classify (env.send (request_to turn a)) ≡ terminal r
        → IsSettled pool before (some (env.store.put s key (pin_of a)))
    IsSettled-put pool before s a r same m t = record {
      store = env.store.put s key (pin_of a);
      stored = refl;
      own = inr (a, r, m, reliable.get-put s key key (pin_of a) ∙ rw (==_self key), t);
      others = λ j ne. reliable.get-put s key j (pin_of a) ∙ rw ne (same j ne);
    }

    clear_others :
        (s : S) (j : Str)
        → (key == j) ≡ false
        → env.store.get (env.store.clear s key) j ≡ env.store.get s j
    clear_others s j ne = reliable.get-clear s key j ∙ rw ne

    IsSettled-clear : (pool : AccountPool) (s : S) → IsSettled pool s (some (env.store.clear s key))
    IsSettled-clear pool s = record {
      store = env.store.clear s key;
      stored = refl;
      own = inl (reliable.get-clear s key key ∙ rw (==_self key));
      others = clear_others s;
    }

    fallback_or_error-affinity :
        (state : RouterState S) (first : Fallback) (fp slug : Str)
        → ((fallback_or_error state first fp slug).0.affinity ≡ state.affinity)
          × ((fallback_or_error_single state first fp slug).0.affinity ≡ state.affinity)
    unfolding fallback_or_error fallback_or_error_single
    fallback_or_error-affinity state (body b) fp slug = (refl, refl)
    fallback_or_error-affinity state (no_body e) fp slug = (refl, refl)

    put_pin-some :
        (state : RouterState S) (s : S) (slug : Str) (source : Source)
        → state.affinity ≡ some s
        → is_fallback source ≡ false
        → (maybe_pin env state turn.key slug turn.model source).affinity
          ≡ some (env.store.put s key (record { slug = slug; model = turn.model }))
    unfolding maybe_pin
    put_pin-some state s slug source e f = rw f (rw (e, keyed))

    finish_repin-IsSettled :
        (pool picked : AccountPool) (state : RouterState S) (s : S) (account : Account)
        (first : Fallback) (alt : Account) (answer : Primary)
        → state.affinity ≡ some (env.store.clear s key)
        → In alt pool.accounts
        → classify (env.send (request_to turn alt)) ≡ answer
        → IsSettled pool s (finish_repin env turn picked state account first alt answer).0.affinity
    unfolding finish_repin
    finish_repin-IsSettled pool picked state s account first alt (terminal r) e m t =
        subst (IsSettled pool s)
          (sym (put_pin-some state (env.store.clear s key) alt.slug repinned e refl))
          (IsSettled-put pool s (env.store.clear s key) alt r (clear_others s) m t)
    finish_repin-IsSettled pool picked state s account first alt (retry (body b) gate) e m t =
        subst (IsSettled pool s) (sym e) (IsSettled-clear pool s)
    finish_repin-IsSettled pool picked state s account first alt (retry (no_body x) gate) e m t =
        subst (IsSettled pool s)
          (sym ((fallback_or_error-affinity state first turn.fp account.slug).0 ∙ e))
          (IsSettled-clear pool s)

    with_alternative-IsSettled :
        (pool picked : AccountPool) (state : RouterState S) (s : S) (account : Account)
        (first : Fallback) (alt : Option Account)
        → state.affinity ≡ some (env.store.clear s key)
        → ((a : Account) → alt ≡ some a → In a pool.accounts)
        → IsSettled pool s (with_alternative env turn picked state account first alt).0.affinity
    unfolding with_alternative repin
    with_alternative-IsSettled pool picked state s account first none e m =
        subst (IsSettled pool s)
          (sym ((fallback_or_error-affinity state first turn.fp account.slug).1 ∙ e))
          (IsSettled-clear pool s)
    with_alternative-IsSettled pool picked state s account first (some alt) e m =
        elim (Bool-cases (alt.slug == account.slug)) [
          | inl same ↦ rw same (
              subst (IsSettled pool s)
                (sym ((fallback_or_error-affinity state first turn.fp account.slug).1 ∙ e))
                (IsSettled-clear pool s))
          | inr other ↦
              rw other
                (finish_repin-IsSettled pool picked _ s account first alt _ e (m alt refl) refl)
        ]

    clear_pin-some :
        (affinity : Option S) (s : S)
        → affinity ≡ some s
        → clear_pin env affinity turn.key ≡ some (env.store.clear s key)
    unfolding clear_pin
    clear_pin-some affinity s e = rw (e, keyed)

    finish_primary-IsSettled :
        (pool chosen : AccountPool) (state : RouterState S) (s : S) (account : Account)
        (source : Source) (answer : Primary)
        → state.affinity ≡ some s
        → is_fallback source ≡ false
        → In account pool.accounts
        → chosen.accounts ≡ pool.accounts
        → classify (env.send (request_to turn account)) ≡ answer
        → IsSettled pool s (finish_primary env turn chosen state account source answer).0.affinity
    unfolding finish_primary fail_over
    finish_primary-IsSettled pool chosen state s account source (terminal r) e f m same t =
        subst (IsSettled pool s) (sym (put_pin-some state s account.slug source e f))
          (IsSettled-put pool s s account r (λ j ne. refl) m t)
    finish_primary-IsSettled pool chosen state s account source (retry first gate) e f m same t =
        with_alternative-IsSettled pool _ _ s account first _ (clear_pin-some state.affinity s e)
          (λ a p.
            subst (In a)
              (cool-accounts chosen turn.times.failed_at account.slug turn.model gate ∙ same)
              (pick-In _ _ _ _ p))

    pinned_choice :
        (pool : AccountPool) (s : S) (affinity : Option S)
        → affinity ≡ some s
        → pool.accounts ≢ []
        → (a : Account) × (chosen : AccountPool) × (source : Source) × (choose env turn pool
              affinity
            ≡ some (a, chosen, source))
          × (is_fallback source ≡ false)
    unfolding choose first_choice
    pinned_choice pool s affinity e ne =
        let (a, picked) = pick-some pool turn.times.picked_at none turn.model ne in
        rw e (go _ _ a picked)
      where
        go :
            (live : Option Account) (picked : Option Account × AccountPool) (a : Account)
            → picked.0 ≡ some a
            → (b : Account) × (chosen : AccountPool) × (source : Source) × (first_choice pool live
                  picked new
                ≡ some (b, chosen, source))
              × (is_fallback source ≡ false)
        go (some b) picked a p = (b, pool, from_pin, refl, refl)
        go none (o, rest) a p = (a, rest, new, rw p, refl)

    -- With a store that keeps the contract `IsReliable` (no command fails and no pin expires) and a
    -- pool that is not empty: after a run for a conversation that has a key, the conversation is
    -- unpinned, or pinned, with the model of the turn, to an account of the pool whose pod gave a
    -- final answer to this turn; the pins of all other conversations are as before.
    pub route-IsSettled :
        (pool : AccountPool) (state : RouterState S) (s : S)
        → state.affinity ≡ some s
        → pool.accounts ≢ []
        → IsSettled pool s (route env turn pool state).0.affinity
    unfolding route
    route-IsSettled pool state s e ne =
        let (a, chosen, source, c, f) = pinned_choice pool s state.affinity e ne in
        let (m, same) = choose-In env turn pool chosen state.affinity a source c in
        rw c (finish_primary-IsSettled pool chosen _ s a source _ e f m same refl)
