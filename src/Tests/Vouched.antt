-- ===== src/Tests/Vouched.antt =====
-- A keyboard-interactive login on the concrete server, from the new context to the last response.
use gexcloud.Base.{
  List, Option, [], ap, arith, false, get_elem?, none, refl, some, true, ℕ, ◌∷◌, ◌≡◌,
}
use gexcloud.Pam.Account.{undecided}
use gexcloud.Pam.Context.{load_ctxt, store_ctxt}
use gexcloud.Pam.Device.{
  Query, let_in, respond_done, sshpam_init_ctx, sshpam_query, sshpam_respond, start_thread,
}
use gexcloud.Pam.Device.Admitted.{sshpam_query-admitted}
use gexcloud.Pam.Device.Interface.{Uses, inited, queried, sshpam_device, then_used, unused}
use gexcloud.Pam.Device.Marks.{HasSucceeded}
use gexcloud.Pam.Device.Vouched.{Vouched, sshpam_respond-Vouched}
use gexcloud.Pam.Environment.RoundTrip.{Exportable}
use gexcloud.Pam.Handle.{same_user, sshpam_init}
use gexcloud.Pam.Process.{pthread_create}
use gexcloud.Pam.Thread.{success_payload}
use gexcloud.Server.Monad.{Result, ok, ◌>>=◌}
use gexcloud.Server.Pam.{PamCode, pam_success}
use gexcloud.Server.State.{PamCtxt, Server, running}
use gexcloud.Tests.Servers.{named}
use gexcloud.Tests.World.{alice, world, world-IsCodec}
use gexcloud.Text.{Bytes, str_eq}

abbrev vacant : Server
vacant = record named { pam = record named.pam { contexts = []; authenticated = false } }

abbrev started : Server
started = (sshpam_init_ctx world vacant).1

abbrev started_ctxt : PamCtxt
started_ctxt = record { pam_thread = 77; pam_psock = some 3; pam_csock = none; pam_done = running }

abbrev success_message : List (PamCode × Bytes)
success_message = (pam_success, success_payload world undecided 0 [] none) ∷ []

abbrev asked : Server
asked = (sshpam_query world 0 success_message started).1

unmarked : (q : ℕ) → HasSucceeded q vacant → ⊥
unmarked q x = absurd (no_object x.alive)
  where
    no_object : {c : PamCtxt} → ◌≡◌ {A = Option (Option PamCtxt)} none (some (some c)) → ⊥
    no_object e = cc

begins : (sshpam_init_ctx world vacant).0 ≡ ok (some 0)
unfolding sshpam_init_ctx sshpam_init same_user start_thread pthread_create load_ctxt store_ctxt
    str_eq ◌>>=◌
begins = refl

context_there :
    (started.pam.authctxt_set ≡ true)
    × (started.auth.pw ≡ some alice)
    × (get_elem? started.pam.contexts 0 ≡ some (some started_ctxt))
unfolding sshpam_init_ctx sshpam_init same_user start_thread pthread_create load_ctxt store_ctxt
    str_eq ◌>>=◌
context_there = (refl, refl, refl)

empty-Exportable : Exportable world world-IsCodec undecided 0 [] none
empty-Exportable = record {
  status_bits = omega arith;
  force_bits = omega arith;
  own_few = omega arith;
  from_pam_bits = omega arith;
  own_plain = ground arith;
  from_pam_plain = ground arith;
}

answers : (sshpam_query world 0 success_message started).0 ≡ ok let_in
answers =
    let (known, pw, alive) = context_there in
    ap (λ (r : Result Query × Server). r.0)
      (sshpam_query-admitted world world-IsCodec 0 started_ctxt alice undecided 0 [] none [] started
        known pw refl alive empty-Exportable)

login : Uses world (sshpam_device world) vacant asked
login = then_used (then_used unused (inited begins)) (queried 0 success_message answers)

sshpam_respond-Vouched_example :
    ((sshpam_respond world 0 0 [] asked).0 ≡ ok respond_done → Vouched world 0 login)
    × (asked.pam.authenticated ≡ false
        → (sshpam_respond world 0 0 [] asked).1.pam.authenticated ≡ true
        → Vouched world 0 login)
sshpam_respond-Vouched_example = sshpam_respond-Vouched world vacant asked unmarked login 0 0 []
