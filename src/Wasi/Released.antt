-- ===== src/Wasi/Released.antt =====
-- ixland_wamr.c: loading and running a program gives back all that it takes.
use ixland.Prelude.{
  ◌≡◌, Bool, true, false, ◌&&◌, Option, none, some, List, [], ◌∷◌, if◌then◌else◌, arith,
}
use ixland.Wasi.Load.{Resource, Effect, take, give, Steps, minus_one, load_wasm}

-- The resources that are held, none after one was taken twice or given back while not held.
pub record Held : Type 0 where
  pub file : Bool
  pub buffer : Bool
  pub runtime : Bool
  pub unit_module : Bool
  pub instance_of : Bool
  pub exec_env : Bool

abbrev pub nothing : Held
nothing = record {
  file = false;
  buffer = false;
  runtime = false;
  unit_module = false;
  instance_of = false;
  exec_env = false;
}

abbrev pub holds : Resource → Held → Bool
holds Resource.file h = h.file
holds Resource.buffer h = h.buffer
holds Resource.runtime h = h.runtime
holds Resource.unit_module h = h.unit_module
holds Resource.instance_of h = h.instance_of
holds Resource.exec_env h = h.exec_env

abbrev pub hold : Resource → Bool → Held → Held
hold Resource.file b h = record h { file = b }
hold Resource.buffer b h = record h { buffer = b }
hold Resource.runtime b h = record h { runtime = b }
hold Resource.unit_module b h = record h { unit_module = b }
hold Resource.instance_of b h = record h { instance_of = b }
hold Resource.exec_env b h = record h { exec_env = b }

abbrev pub replay : List Effect → Held → Option Held
replay [] h = some h
replay (take r ∷ es) h = let rest = replay es (hold r true h) in if holds r h then none else rest
replay (give r ∷ es) h = let rest = replay es (hold r false h) in if holds r h then rest else none

abbrev all_succeed : Steps → Bool
all_succeed s =
    s.opens && s.allocates && s.reads && s.starts_runtime && s.registers && s.loads
    && s.instantiates && s.makes_env && s.has_start && s.succeeds

-- Whichever step of ixland_wamr_load_wasm fails, what was taken is given back, nothing twice and nothing that
-- is not held; and the result is the program's if every step succeeds, and -1 otherwise.
pub load_wasm-releases :
    (s : Steps)
    → (replay (load_wasm s).1 nothing ≡ some nothing)
      × ((load_wasm s).0 ≡ (if all_succeed s then s.retval else minus_one))
unfolding load_wasm
load_wasm-releases s = ground arith
