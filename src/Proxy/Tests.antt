-- ===== src/Proxy/Tests.antt =====
-- Configurations and pickers on small inputs.
use mathlib.Core.Option
use deskaone_sdk.Shared.{◌≡◌, ◌↔◌, refl, true, none, some, Option, List, [], ◌∷◌, ok, arith}
use deskaone_sdk.Shared.Int.{pos}
use deskaone_sdk.Shared.Text.{codes, trim_space, trim_front, trim_back, space_size}
use deskaone_sdk.Shared.Text.{itoa, digits, contains_byte}
use deskaone_sdk.Proxy.{ProxyConfig, socks5, type_text}
use deskaone_sdk.Proxy.{new_proxy_config, is_valid, masked_text, url_text, join_host_port, address}
use deskaone_sdk.Proxy.{type_is_valid, credentials_are_valid, masked_credentials, url_credentials}
use deskaone_sdk.Proxy.Validity.{
  IsComplete, is_valid_iff, new_proxy_config-IsComplete, masked_text-password,
}
use deskaone_sdk.Proxy.Picker.{rounds, rounds-each_once}

abbrev config : ProxyConfig
config = record {
  kind = socks5;
  host = codes "::1";
  port = pos 1080;
  username = some (codes "u");
  password = some (codes "pw");
}

printed : masked_text config ≡ codes "socks5://u:***@[::1]:1080"
unfolding masked_text type_text masked_credentials address join_host_port contains_byte itoa digits
printed = refl

url_printed : url_text config ≡ codes "socks5://u:pw@[::1]:1080"
unfolding url_text type_text url_credentials address join_host_port contains_byte itoa digits
url_printed = refl

made :
    new_proxy_config socks5 (codes " ::1 ") (pos 1080) (some (codes "u")) (some (codes " pw"))
    ≡ some config
unfolding new_proxy_config is_valid type_is_valid credentials_are_valid trim_space trim_front
    trim_back space_size
made = refl

is_valid_iff_example : (is_valid config ≡ true) ↔ IsComplete config
is_valid_iff_example = is_valid_iff config

new_proxy_config-IsComplete_example :
    IsComplete config
    × (socks5 ≡ socks5)
    × (pos 1080 ≡ pos 1080)
    × (codes "::1" ≡ trim_space (codes " ::1 "))
    × (some (codes "u") ≡ Option.map trim_space (some (codes "u")))
    × (some (codes "pw") ≡ Option.map trim_space (some (codes " pw")))
new_proxy_config-IsComplete_example =
    new_proxy_config-IsComplete socks5 (codes " ::1 ") (pos 1080) (some (codes "u"))
      (some (codes " pw")) config made

masked_text-password_example :
    masked_text config ≡ masked_text (record config { password = some (codes "other") })
masked_text-password_example = masked_text-password config (codes "pw") (codes "other")

abbrev proxies : List (Option ProxyConfig)
proxies = some config ∷ none ∷ []

rounds-each_once_example : rounds proxies 2 4 ≡ (ok (some config) ∷ ok none ∷ [], 6)
rounds-each_once_example = rounds-each_once proxies 4 (omega arith) (omega arith)
