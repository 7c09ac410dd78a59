-- ===== src/Pam/Device/Interface.antt =====
-- KbdintDevice: what the keyboard-interactive method is given of PAM, and how its calls may follow
-- each other.
use gexcloud.Base.{List, Option, ℕ, ◌≡◌}
use gexcloud.Pam.Device.{
  Query, Respond, sshpam_free_ctx, sshpam_init_ctx, sshpam_query, sshpam_respond,
}
use gexcloud.Pam.Device.Frame.{handler-SameContexts}
use gexcloud.Pam.Process.{sshpam_sigchld_handler, sshpam_thread_cleanup}
use gexcloud.Pam.Process.Owned.{SameContexts}
use gexcloud.Server.Env.{Env}
use gexcloud.Server.Hoare.{Hoare}
use gexcloud.Server.Monad.{M, ok}
use gexcloud.Server.Pam.{PamCode}
use gexcloud.Server.State.{Server}
use gexcloud.Text.{Bytes, codes}

-- The four functions of a device. The method's own code stands in other files.
pub record KbdintDevice : Type 0 where
  pub name : Bytes
  pub init_ctx : M (Option ℕ)
  pub query : ℕ → List (PamCode × Bytes) → M Query
  pub respond : ℕ → ℕ → Bytes → M Respond
  pub free_ctx : ℕ → M (Unit {0})

abbrev pub sshpam_device : Env → KbdintDevice
sshpam_device env = record {
  name = codes "pam";
  init_ctx = sshpam_init_ctx env;
  query = sshpam_query env;
  respond = sshpam_respond env;
  free_ctx = sshpam_free_ctx env;
}

-- The same for a process that asks the monitor: mm_sshpam_init_ctx and the other three are the
-- monitor's functions.
abbrev pub mm_sshpam_device :
    (mm_sshpam_init_ctx : M (Option ℕ))
    → (mm_sshpam_query : ℕ → List (PamCode × Bytes) → M Query)
    → (mm_sshpam_respond : ℕ → ℕ → Bytes → M Respond) → (mm_sshpam_free_ctx : ℕ → M (Unit {0}))
    → KbdintDevice
mm_sshpam_device init_ctx query respond free_ctx = record {
  name = codes "pam";
  init_ctx = init_ctx;
  query = query;
  respond = respond;
  free_ctx = free_ctx;
}

-- What a device keeps of the state, whichever of its functions is called and returns.
pub record Keeps (J : Server → Type 0) (d : KbdintDevice) : Type 0 where
  pub keeps_init : Hoare J d.init_ctx (λ _. J)
  pub keeps_query : (p : ℕ) (inbox : List (PamCode × Bytes)) → Hoare J (d.query p inbox) (λ _. J)
  pub keeps_respond : (p num : ℕ) (resp : Bytes) → Hoare J (d.respond p num resp) (λ _. J)
  pub keeps_free : (p : ℕ) → Hoare J (d.free_ctx p) (λ _. J)

-- A call of the device, of the cleanup or of the signal handler that returned, or anything that
-- leaves the pam_ctxt objects and cleanup_ctxt alone.
pub data Use (env : Env) (d : KbdintDevice) (s : Server) : Server → Type 0 where
  inited : {o : Option ℕ} → (d.init_ctx s).0 ≡ ok o → Use env d s (d.init_ctx s).1
  queried :
      (p : ℕ) (inbox : List (PamCode × Bytes)) {q : Query}
      → (d.query p inbox s).0 ≡ ok q
      → Use env d s (d.query p inbox s).1
  responded :
      (p num : ℕ) (resp : Bytes) {r : Respond}
      → (d.respond p num resp s).0 ≡ ok r
      → Use env d s (d.respond p num resp s).1
  freed : (p : ℕ) → (d.free_ctx p s).0 ≡ ok tt → Use env d s (d.free_ctx p s).1
  cleaned : (sshpam_thread_cleanup env s).0 ≡ ok tt → Use env d s (sshpam_thread_cleanup env s).1
  signalled :
      (sshpam_sigchld_handler env s).0 ≡ ok tt → Use env d s (sshpam_sigchld_handler env s).1
  untouched : (t : Server) → SameContexts s t → Use env d s t

-- Any number of them.
pub data Uses (env : Env) (d : KbdintDevice) (s : Server) : Server → Type 0 where
  unused : Uses env d s s
  then_used : {t u : Server} → Uses env d s t → Use env d t u → Uses env d s u

-- What the device, the cleanup and the code around them keep, holds after any number of calls.
module _ (env : Env) (d : KbdintDevice) (J : Server → Type 0) (device : Keeps J d)
    (kept : (s t : Server) → SameContexts s t → J s → J t)
    (cleanup : Hoare J (sshpam_thread_cleanup env) (λ _. J)) where
  Use-kept : (s t : Server) → Use env d s t → J s → J t
  Use-kept s t (inited h) j = device.keeps_init.after s j _ h
  Use-kept s t (queried p inbox h) j = (device.keeps_query p inbox).after s j _ h
  Use-kept s t (responded p num resp h) j = (device.keeps_respond p num resp).after s j _ h
  Use-kept s t (freed p h) j = (device.keeps_free p).after s j tt h
  Use-kept s t (cleaned h) j = cleanup.after s j tt h
  Use-kept s t (signalled h) j = kept s _ ((handler-SameContexts env).at s) j
  Use-kept s t (untouched u k) j = kept s u k j

  pub Uses-kept : (s t : Server) → Uses env d s t → J s → J t
  Uses-kept s t unused j = j
  Uses-kept s t (then_used us u) j = Use-kept _ t u (Uses-kept s _ us j)
