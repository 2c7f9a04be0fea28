-- ===== src/Examples/Identities.antt =====
-- A connect request: a callsign that fills the 252 bytes, and a name that has no room.
use naudio.Prelude.{arith, ◌≡◌, refl, false, some, [], ◌∷◌, replicate}
use naudio.Roster.{ClientInfo, is_empty, display_string}
use naudio.Roster.Identity.{clamped}
use naudio.Config.{default_config}
use naudio.Requests.{
  RxFormatRequest, connect_request_full, connect_request_v12, parse_connect_request_client_info,
  parse_connect_request_format_request,
}
use naudio.Requests.Answers.{parse-connect_request}

abbrev operator : ClientInfo
operator = record { callsign = replicate 251 65; name = 66 ∷ 67 ∷ []; location = 68 ∷ [] }

operator-filled : is_empty operator ≡ false
unfolding is_empty
operator-filled = refl

abbrev wanted : RxFormatRequest
wanted = record { sample_rate = 12000; layout = 1 }

parse-connect_request_example :
    (parse_connect_request_client_info
        (connect_request_v12 (78 ∷ 65 ∷ []) 1 (some default_config) (some operator) wanted)
      ≡ some (clamped operator))
    × (parse_connect_request_format_request
          (connect_request_v12 (78 ∷ 65 ∷ []) 1 (some default_config) (some operator) wanted)
        ≡ some wanted)
    × (parse_connect_request_client_info
          (connect_request_full (78 ∷ 65 ∷ []) 1 (some default_config) (some operator))
        ≡ some (clamped operator))
parse-connect_request_example =
    parse-connect_request (78 ∷ 65 ∷ []) 1 (some default_config) operator wanted (omega arith)
      operator-filled (omega arith) (omega arith)

one_left : (clamped operator).name ≡ 66 ∷ []
one_left = refl

shown :
    display_string (record { callsign = 75 ∷ []; name = []; location = 68 ∷ [] })
    ≡ 75 ∷ 32 ∷ 40 ∷ 68 ∷ 41 ∷ []
unfolding display_string
shown = refl
