-- ===== src/Ssh2/Methods.antt =====
-- The table `authmethods` of auth2.c, authmethods_get and authmethod_lookup. The entries
-- themselves stand in other files of sshd: their names and their `enabled` pointers come from the
-- environment, and a flag may change from call to call.
pub mod Offer
use gexcloud.Base.{
  Bool, List, Option, [], false, if◌then◌else◌, none, not, some, ◌&&◌, ◌++◌, ◌||◌, ◌∷◌,
}
use gexcloud.Server.Env.{Env}
use gexcloud.Server.Event.{
  History, MethodId, method_gssapi, method_gsskeyex, method_hostbased, method_jpake, method_kbdint,
  method_none, method_passwd, method_pubkey,
}
use gexcloud.Text.{Bytes, codes, str_eq}

module _ (env : Env) where
  unfoldable pub authmethods : List MethodId
  authmethods =
      method_none
      ∷ method_pubkey
      ∷ ((if env.build.gssapi then method_gsskeyex ∷ method_gssapi ∷ [] else [])
          ++ ((if env.build.jpake then method_jpake ∷ [] else [])
              ++ (method_passwd ∷ method_kbdint ∷ method_hostbased ∷ [])))

  abbrev pub is_on : Option Bool → Bool
  is_on none = false
  is_on (some flag) = flag

  -- `m->enabled != NULL && *(m->enabled) != 0`
  unfoldable pub is_enabled : History → MethodId → Bool
  is_enabled h m = is_on (env.method_enabled m h)

  -- The body of the loop of authmethods_get, on what the buffer holds.
  unfoldable pub add_method : Bytes → Bytes → Bytes
  add_method [] name = name
  add_method (c ∷ b) name = c ∷ b ++ b',' ∷ name

  unfoldable pub collect_methods : History → List MethodId → Bytes → Bytes
  collect_methods h [] b = b
  collect_methods h (m ∷ ms) b = collect_methods h ms (
      if str_eq (env.method_name m) (codes "none") || not (is_enabled h m)
      then b
      else add_method b (env.method_name m))

  unfoldable pub authmethods_get : History → Bytes
  authmethods_get h = collect_methods h authmethods []

  unfoldable pub find_method : History → Bytes → List MethodId → Option MethodId
  find_method h name [] = none
  find_method h name (m ∷ ms) =
      if is_enabled h m && str_eq name (env.method_name m) then some m else find_method h name ms

  -- The callers pass a name that is not NULL.
  unfoldable pub authmethod_lookup : History → Bytes → Option MethodId
  authmethod_lookup h name = find_method h name authmethods
