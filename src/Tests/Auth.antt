-- ===== src/Tests/Auth.antt =====
-- User names on concrete input.
use gexcloud.Auth.UserName.{UserSpec, split_user}
use gexcloud.Auth.UserName.Parse.{Free, IsPlain, split_user-Free, split_user-render}
use gexcloud.Base.{arith, some, ◌≡◌}
use gexcloud.Text.{codes}

abbrev spec : UserSpec
spec = record { user = codes "al"; style = some (codes "pam"); role = some (codes "r:1") }

spec-IsPlain : IsPlain spec
spec-IsPlain = record {
  no_slash = ground arith;
  no_colon = ground arith;
  style_fits = ground arith;
  role_fits = tt;
}

split_user-render_example : split_user (codes "al:pam/r:1") ≡ spec
split_user-render_example = split_user-render spec spec-IsPlain

split_user-Free_example :
    Free b'/' (split_user (codes "a/b:c/d")).user × Free b':' (split_user (codes "a/b:c/d")).user
split_user-Free_example = split_user-Free (codes "a/b:c/d")
