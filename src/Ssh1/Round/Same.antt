-- ===== src/Ssh1/Round/Same.antt =====
-- What a round of protocol 1 leaves alone: who the user is.
use gexcloud.Base.{Option, [], arith, none, some, ℕ, ◌≡◌}
use gexcloud.Server.Env.{Env}
use gexcloud.Server.Event.{Authenticated, postponed, result}
use gexcloud.Server.Frame.{
  IsFrame, SameLogin, Within, Within-bind, Within-emit, Within-gets, Within-if, Within-pure,
  login_rules,
}
use gexcloud.Server.Monad.{M, match_option, modify}
use gexcloud.Server.State.{Server}
use gexcloud.Ssh1.Methods.{AuthMethod1, lookup_authmethod1}
use gexcloud.Ssh1.Round.{auth_round, judge_method, limit_or_try, reply_round, try_method, try_type}
use gexcloud.Ssh1.Round.Tries.{
  abandon_stale-SameLogin, check_account-SameLogin, check_root-SameLogin, check_valid-SameLogin,
  run_method-SameLogin,
}
use gexcloud.Text.{Bytes}

pub record SameUser (s t : Server) : Type 0 where
  pub user : t.auth.user ≡ s.auth.user
  pub pw : t.auth.pw ≡ s.auth.pw
  pub valid : t.auth.valid ≡ s.auth.valid

pub SameUser-IsFrame : IsFrame SameUser
SameUser-IsFrame = record {
  here = λ s. ground arith;
  compose = λ s t u h k. ground arith;
  longer = λ s h. ground arith;
}

pub SameLogin-SameUser : (s t : Server) → SameLogin s t → SameUser s t
SameLogin-SameUser s t k = record { user = k.user; pw = k.pw; valid = k.valid }

stays : {A : Type 0} {m : M A} → Within SameLogin m → Within SameUser m
stays w = record { at = λ s. SameLogin-SameUser s _ (w.at s) }

module _ (env : Env) where
  reply-SameUser : (type n : ℕ) (info : Bytes) → Within SameUser (reply_round env type n info)
  unfolding reply_round modify
  reply-SameUser type n info = Within-bind SameUser-IsFrame (Within-emit SameUser-IsFrame _) λ x.
      Within-bind SameUser-IsFrame (record { at = λ s. ground arith })
        λ y. Within-if SameUser-IsFrame _ (Within-pure SameUser-IsFrame _) (
          Within-bind SameUser-IsFrame (record { at = λ s. ground arith })
            λ z. search (login_rules, SameUser-IsFrame) depth 10)

  judge-SameUser :
      (type : ℕ) (name : Bytes) (o : Authenticated × Bytes)
      → Within SameUser (judge_method env type name o)
  unfolding judge_method
  judge-SameUser type name (postponed, info) = Within-pure SameUser-IsFrame _
  judge-SameUser type name (result n, info) =
      Within-bind SameUser-IsFrame (stays (check_valid-SameLogin env n)) λ x.
        Within-bind SameUser-IsFrame (stays (check_root-SameLogin env name n)) λ granted.
          Within-bind SameUser-IsFrame (stays (check_account-SameLogin env granted))
            λ y. reply-SameUser type granted info

  try_method-SameUser : (type : ℕ) (meth : AuthMethod1) → Within SameUser (try_method env type meth)
  unfolding try_method
  try_method-SameUser type meth =
      Within-if SameUser-IsFrame _
        (Within-bind SameUser-IsFrame (stays (run_method-SameLogin env meth.method))
          (judge-SameUser type meth.name))
        (reply-SameUser type 0 [])

  try_found-SameUser :
      (type : ℕ) (o : Option AuthMethod1)
      → Within SameUser (match_option o (reply_round env type 0 []) (try_method env type))
  unfolding match_option
  try_found-SameUser type none = reply-SameUser type 0 []
  try_found-SameUser type (some meth) = try_method-SameUser type meth

  pub auth_round-SameUser : (prev type : ℕ) → Within SameUser (auth_round env prev type)
  unfolding auth_round limit_or_try try_type
  auth_round-SameUser prev type = Within-bind SameUser-IsFrame (Within-emit SameUser-IsFrame _) λ x.
      Within-bind SameUser-IsFrame (stays (abandon_stale-SameLogin env prev type)) λ y.
        Within-bind SameUser-IsFrame (Within-gets SameUser-IsFrame _) λ failures.
          Within-if SameUser-IsFrame _ (reply-SameUser type 0 [])
            (try_found-SameUser type (lookup_authmethod1 type))
