-- ===== src/LearnGrpc/Registry.antt =====
-- learn_grpc/hello_world/src/lib/event/event_handler_manager.h: the class EventHandlerManager. Its
-- unordered map is a dictionary; the order of its elements shows in a debug text alone.
pub mod Keys
use cpp_programming.Base.{
  ℕ, zero, suc, ◌+◌, ◌-◌, ◌*◌, ◌/◌, ◌%◌, ◌^◌, ◌≤◌, ◌<◌, pred, ◌≡◌, refl, sym, ap, ◌∙◌, subst, ◌≢◌,
  ◌↔◌, ◌⊎◌, inl, inr, Bool, true, false, ◌&&◌, ◌||◌, not, Option, none, some, List, [], ◌∷◌, ◌++◌,
  map, append-nil, append_assoc, arith, ltb, leb, ◌==◌, if◌then◌else◌, ==_iff, ==_refl, Bool-cases,
  Option-cases, length, is_empty, get_elem?, set, take, drop, All, length-append, length-drop,
  length-take, take-append-drop, take-append, drop-append, length-set, Exn, runtime_error,
  invalid_argument, out_of_range, out_of_fuel, undefined, blocked, system_error, Outcome, returned,
  threw, ◌>>=◌, after, Result, ok, err,
}
use cpp_programming.Base.Maps.{Dict, lookup, has, insert, erase}
use cpp_programming.LearnGrpc.Event.{half}

pub record Registry {ℓ} (H : Type ℓ) : Type ℓ where
  pub handlers : Dict H
  pub last_key : ℕ  -- uint32_t

module _ {ℓ} {H : Type ℓ} where
  -- The constructor.
  unfoldable pub new : Registry H
  new = record { handlers = []; last_key = 0 }

  -- The loop of `add`: the key that it ends with. `++lastKey` wraps around. It comes back to `old`
  -- after 2^32 rounds at most, which is the fuel.
  unfoldable pub add_loop : ℕ → ℕ → Dict H → ℕ → Result ℕ
  unfolding has
  add_loop zero old m last = err out_of_fuel
  add_loop (suc f) old m last =
      let key = (last + 1) % half in
      let rest = add_loop f old m key in
      if has key m then (if key == old then err runtime_error else rest) else ok key

  -- What `add` does behind the loop.
  abbrev pub added : H → Registry H → Result ℕ → Result (ℕ × Registry H)
  added h r (ok key) = ok (key, record { handlers = insert key h r.handlers; last_key = key })
  added h r (err e) = err e

  -- `add` gives the key of the event that it returns. One that throws leaves `lastKey` where it was:
  -- the loop has come back to it.
  unfoldable pub add : H → Registry H → Result (ℕ × Registry H)
  unfolding add_loop insert
  add h r = added h r (add_loop half r.last_key r.handlers r.last_key)

  unfoldable pub contains : ℕ → Registry H → Bool
  contains key r = has key r.handlers

  unfoldable pub get : ℕ → Registry H → Result H
  unfolding lookup
  get key r = elim (lookup key r.handlers) [ none ↦ err runtime_error | some h ↦ ok h ]

  unfoldable pub count : Registry H → ℕ
  count r = length r.handlers

  unfoldable pub remove : ℕ → Registry H → Registry H
  unfolding erase
  remove key r = record r { handlers = erase key r.handlers }

  unfoldable pub clear : Registry H → Registry H
  clear r = record r { handlers = [] }
