-- ===== src/Runtime/Balanced.antt =====
-- ixland_wamr_simple.c: the objects of the runtime that are held are those that the state names.
use ixland.Prelude.{
  ◌≡◌, refl, ◌∙◌, Bool, true, false, ◌||◌, some, List, [], ◌∷◌, ◌++◌, if◌then◌else◌, Bool-cases,
  inl, inr, arith,
}
use ixland.Wasi.Load.{Resource, Effect}
use ixland.Wasi.Released.{Held, nothing, holds, hold, replay}
use ixland.Runtime.{State, Status, init, give_if, unload, deinit, Steps, load_fresh, load_module}

-- What the state says that it holds.
abbrev pub named : State → Held
named s = record {
  file = false;
  buffer = false;
  runtime = s.initialized;
  unit_module = s.has_module;
  instance_of = s.has_instance;
  exec_env = s.has_env;
}

-- What was taken and not given back is what the state names; nothing was given back that was not held, or
-- taken while it was held; and there is a module only in a runtime that is initialised.
pub record IsSound (s : State) : Type 0 where
  pub balanced : replay s.trace nothing ≡ some (named s)
  pub inside : s.initialized ≡ false → (s.has_module || s.has_instance || s.has_env) ≡ false

abbrev start : State
start = record {
  initialized = false;
  has_module = false;
  has_instance = false;
  has_env = false;
  trace = [];
}

-- The histories of the state.
pub data Reachable : State → Type 0 where
  begin : Reachable start
  init_call : (starts : Bool) (s : State) → Reachable s → Reachable (init starts s).1
  deinit_call : (s : State) → Reachable s → Reachable (deinit s)
  load_call : (a : Steps) (s : State) → Reachable s → Reachable (load_module a s).1
  unload_call : (s : State) → Reachable s → Reachable (unload s)

replay-append :
    (es fs : List Effect) (h k : Held) → replay es h ≡ some k → replay (es ++ fs) h ≡ replay fs k
replay-append [] fs h k e = ground (arith, e)
replay-append (Effect.take r ∷ es) fs h k e = elim (Bool-cases (holds r h)) [
  | inl held ↦ cc (rw held at e)
  | inr free ↦ rw free (replay-append es fs (hold r true h) k (rw free at e))
]
replay-append (Effect.give r ∷ es) fs h k e = elim (Bool-cases (holds r h)) [
  | inl held ↦ rw held (replay-append es fs (hold r false h) k (rw held at e))
  | inr free ↦ cc (rw free at e)
]

log-IsSound :
    (es : List Effect) (s t : State)
    → IsSound s
    → t.trace ≡ s.trace ++ es
    → replay es (named s) ≡ some (named t)
    → (t.initialized ≡ false → (t.has_module || t.has_instance || t.has_env) ≡ false)
    → IsSound t
log-IsSound es s t v e r i = record {
  balanced = rw e (replay-append s.trace es nothing (named s) v.balanced ∙ r);
  inside = i;
}

unload-IsSound : (s : State) → IsSound s → IsSound (unload s)
unfolding unload
unload-IsSound s v =
    log-IsSound
      (give_if s.has_env Resource.exec_env
        ++ (give_if s.has_instance Resource.instance_of
            ++ give_if s.has_module Resource.unit_module))
      s _ v refl (ground arith) (λ e. refl)

-- A call that branches is sound if each branch is.
branch-IsSound :
    (b : Bool) (x y : Status × State)
    → (b ≡ true → IsSound x.1)
    → (b ≡ false → IsSound y.1)
    → IsSound (if b then x else y).1
branch-IsSound true x y h k = h refl
branch-IsSound false x y h k = k refl

either-IsSound :
    (b : Bool) (x y : State)
    → (b ≡ true → IsSound x)
    → (b ≡ false → IsSound y)
    → IsSound (if b then x else y)
either-IsSound true x y h k = h refl
either-IsSound false x y h k = k refl

init-IsSound : (starts : Bool) (s : State) → IsSound s → IsSound (init starts s).1
unfolding init
init-IsSound starts s v =
    branch-IsSound s.initialized _ _ (λ e. v)
      (λ e.
        branch-IsSound starts _ _
          (λ f.
            log-IsSound (Effect.take Resource.runtime ∷ []) s _ v refl (ground arith)
              (λ q. absurd (cc q)))
          (λ f. v))

-- Nothing is loaded in an initialised runtime.
record IsFresh (s : State) : Type 0 where
  up : s.initialized ≡ true
  no_module : s.has_module ≡ false
  no_instance : s.has_instance ≡ false
  no_env : s.has_env ≡ false

load_fresh-IsSound : (a : Steps) (s : State) → IsFresh s → IsSound s → IsSound (load_fresh a s).1
unfolding load_fresh
load_fresh-IsSound a s f v = elim (Bool-cases a.loads) [
  | inr e ↦ rw e v
  | inl e ↦ elim (Bool-cases a.instantiates) [
    | inr g ↦ rw (e, g) (log-IsSound _ s _ v refl (ground arith) v.inside)
    | inl g ↦ elim (Bool-cases a.makes_env) [
      | inr h ↦ rw (e, g, h) (log-IsSound _ s _ v refl (ground arith) v.inside)
      | inl h ↦ rw (e, g, h) (log-IsSound _ s _ v refl (ground arith) (λ q. ground arith))
    ]
  ]
]

unload-IsFresh : (s : State) → s.initialized ≡ true → IsFresh (unload s)
unfolding unload
unload-IsFresh s e = record { up = e; no_module = refl; no_instance = refl; no_env = refl }

load_module-IsSound : (a : Steps) (s : State) → IsSound s → IsSound (load_module a s).1
unfolding load_module
load_module-IsSound a s v =
    branch-IsSound s.initialized _ _
      (λ e. load_fresh-IsSound a (unload s) (unload-IsFresh s e) (unload-IsSound s v)) (λ e. v)

deinit-IsSound : (s : State) → IsSound s → IsSound (deinit s)
unfolding deinit unload
deinit-IsSound s v =
    either-IsSound s.initialized _ _
      (λ e.
        log-IsSound (Effect.give Resource.runtime ∷ []) (unload s) _ (unload-IsSound s v) refl
          (ground arith) (λ q. refl))
      (λ e. v)

-- After every history of calls, the objects that were taken from the runtime and not given back are those
-- that the state names, none was given back twice, and without an initialised runtime there are none.
pub Reachable-IsSound : (s : State) → Reachable s → IsSound s
Reachable-IsSound _ begin = record { balanced = refl; inside = λ e. refl }
Reachable-IsSound _ (init_call starts s r) = init-IsSound starts s (Reachable-IsSound s r)
Reachable-IsSound _ (deinit_call s r) = deinit-IsSound s (Reachable-IsSound s r)
Reachable-IsSound _ (load_call a s r) = load_module-IsSound a s (Reachable-IsSound s r)
Reachable-IsSound _ (unload_call s r) = unload-IsSound s (Reachable-IsSound s r)
