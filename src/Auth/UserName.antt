-- ===== src/Auth/UserName.antt =====
-- `user[:style][/role]` as the two protocols take it apart.
pub mod Parse
use gexcloud.Base.{Option, none, some}
use gexcloud.Text.{Bytes, cut_at}

pub record UserSpec : Type 0 where
  pub user : Bytes
  pub style : Option Bytes
  pub role : Option Bytes

-- The `else if`: with no ':' in front of the role, one inside it is looked for.
unfoldable pub style_in_role : Bytes → Option Bytes → UserSpec
style_in_role user none = record { user = user; style = none; role = none }
style_in_role user (some role) =
    let (name, style) = cut_at b':' role in record { user = user; style = style; role = some name }

unfoldable pub style_of : Bytes × Option Bytes → Option Bytes → UserSpec
style_of (user, none) role = style_in_role user role
style_of (user, some style) role = record { user = user; style = some style; role = role }

unfoldable pub split_user : Bytes → UserSpec
split_user text = let (user, role) = cut_at b'/' text in style_of (cut_at b':' user) role
