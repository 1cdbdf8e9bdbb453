-- ===== src/Telemetry/Shutdown.antt =====
-- internal/telemetry/provider.go and prometheus.go: repeated shutdowns.
use stabsight.Base.{suc, ◌≡◌, refl, true, false, Option, none, List, [], ◌∷◌, map, Text}
use stabsight.Telemetry.Provider.{Closable, shutdown_provider, shutdown_server}

-- Calls of one Shutdown, each with the result that the inner shutdown would give, and the
-- results that they return.
unfoldable pub shut_all :
    (Option Text → Closable → Closable × Option Text)
    → List (Option Text)
    → Closable
    → Closable × List (Option Text)
shut_all shut [] t = (t, [])
shut_all shut (e ∷ es) t =
    let (t', r) = shut e t in let (t'', rs) = shut_all shut es t' in (t'', r ∷ rs)

-- A Shutdown that does nothing once closed.
closed-shut_all :
    (shut : Option Text → Closable → Closable × Option Text)
    → ((e : Option Text) (t : Closable) → t.closed ≡ true → shut e t ≡ (t, none))
    → (es : List (Option Text)) (t : Closable) → t.closed ≡ true
    → shut_all shut es t ≡ (t, map (λ _. none) es)
unfolding shut_all
closed-shut_all shut idle [] t c = refl
closed-shut_all shut idle (e ∷ es) t c = rw (idle e t c, closed-shut_all shut idle es t c)

first-shut_all :
    (shut : Option Text → Closable → Closable × Option Text)
    → ((e : Option Text) (t : Closable) → t.closed ≡ true → shut e t ≡ (t, none))
    → (e : Option Text) (es : List (Option Text)) (t t' : Closable) → shut e t ≡ (t', e)
    → t'.closed ≡ true
    → shut_all shut (e ∷ es) t ≡ (t', e ∷ map (λ _. none) es)
unfolding shut_all
first-shut_all shut idle e es t t' f c = rw (f, closed-shut_all shut idle es t' c)

provider-idle :
    (e : Option Text) (t : Closable) → t.closed ≡ true → shutdown_provider e t ≡ (t, none)
unfolding shutdown_provider
provider-idle e t c = rw c

server-idle : (e : Option Text) (t : Closable) → t.closed ≡ true → shutdown_server e t ≡ (t, none)
unfolding shutdown_server
server-idle e t c = rw c

-- However often it is called, an open provider or server with something below it shuts that down
-- once: the first call returns its result, and every later one returns no error.
pub shutdown-once :
    (e : Option Text) (es : List (Option Text)) (t : Closable)
    → t.closed ≡ false
    → t.has_inner ≡ true
    → (shut_all shutdown_provider (e ∷ es) t
        ≡ (record t { closed = true; shutdowns = suc t.shutdowns }, e ∷ map (λ _. none) es))
      × (shut_all shutdown_server (e ∷ es) t
          ≡ (record t { closed = true; shutdowns = suc t.shutdowns }, e ∷ map (λ _. none) es))
unfolding shut_all shutdown_provider shutdown_server
shutdown-once e es t c h = (
  first-shut_all shutdown_provider provider-idle e es t _ (rw (c, h)) refl,
  first-shut_all shutdown_server server-idle e es t _ (rw (c, h)) refl,
)
