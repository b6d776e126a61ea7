-- ===== src/Accounts/UserAgents.antt =====
-- auth/user_agent.py after `parse`, whose regular expressions have made the `UserAgent`.
use Prim.Native.String.{String}
use fxa_lite.Prelude.{Bool, List, [], ◌∷◌, str_eq, if◌then◌else◌}
use fxa_lite.Python.Strings.{◌<>◌, join, is_in, strip}

pub record UserAgent : Type 0 where
  pub browser : String
  pub browser_version : String
  pub os : String

unfoldable pub is_mobile : UserAgent → Bool
is_mobile agent = is_in agent.os ("Android" ∷ "iOS" ∷ [])

-- `describe`
describe : UserAgent → String
describe agent =
    if str_eq agent.browser "" then "" else strip (agent.browser <> (" " <> agent.browser_version))

add_part : String → List String → List String
add_part part parts = if str_eq part "" then parts else part ∷ parts

-- `synthesize`: the browser and the system, as far as they are known
unfoldable pub synthesize : UserAgent → String
unfolding describe add_part
synthesize agent = join ", " (add_part (describe agent) (add_part agent.os []))
