-- ===== src/Tests/Webhooks.antt =====
-- Deliveries of bePaid and ERIP to a restaurant.
use bonapp.Base.{◌≡◌, refl, true, some, [], ◌∷◌, ◌++◌, ok, codes, same_codes}
use bonapp.Pos.Network.Requests.{PosJson, Fields}
use bonapp.Payments.Webhooks.{
  Cryptography, Credentials, accept_bepaid, accept_erip, bepaid_job, erip_job,
}
use bonapp.Payments.Webhooks.Queued.{QueuesOnly}
use bonapp.Payments.Webhooks.Genuine.{IsGenuine, accept_bepaid-IsGenuine}
use bonapp.Payments.Webhooks.Admitted.{IsAdmitted, accept_erip-IsAdmitted}

abbrev credentials : Credentials
credentials = record {
  is_bepaid = true;
  shop_id = codes "7";
  secret = codes "s";
  public_key = some (codes "k");
}

abbrev named : PosJson
named = PosJson.object (
    Fields.field (codes "tracking_id") (PosJson.text (codes "9"))
      (Fields.field (codes "uid") (PosJson.text (codes "u")) Fields.end))

abbrev body : PosJson
body = PosJson.object (Fields.field (codes "transaction") named Fields.end)

-- A signature is the key before the text; every text is parsed to the body.
abbrev signs : Cryptography
signs = record {
  verify = λ key raw signature. same_codes signature (key ++ raw);
  basic = λ shop secret. codes "Basic " ++ shop ++ codes ":" ++ secret;
  decrypt = λ _. ok credentials;
  parse = λ _. some body;
}

bepaid_queued :
    accept_bepaid signs true
      (codes "1")
      (some (codes "e"))
      (some (codes "{}"))
      (some (codes "k{}"))
      (some (codes "Basic 7:s"))
      []
    ≡ (ok tt, bepaid_job (codes "1") body ∷ [])
unfolding accept_bepaid
bepaid_queued = refl

accept_bepaid-IsGenuine_example :
    QueuesOnly
      (IsGenuine signs true
        (codes "1")
        (some (codes "e"))
        (some (codes "{}"))
        (some (codes "k{}"))
        (some (codes "Basic 7:s")))
      (accept_bepaid signs true
        (codes "1")
        (some (codes "e"))
        (some (codes "{}"))
        (some (codes "k{}"))
        (some (codes "Basic 7:s")))
accept_bepaid-IsGenuine_example =
    accept_bepaid-IsGenuine signs true (codes "1") (some (codes "e")) (some (codes "{}"))
      (some (codes "k{}")) (some (codes "Basic 7:s"))

erip_queued :
    accept_erip signs true
      (codes "1")
      (some (codes "e"))
      (some (codes "{}"))
      (some [])
      (some (codes "Basic 7:s"))
      []
    ≡ (ok tt, erip_job (codes "1") body (codes "9") (codes "u") ∷ [])
unfolding accept_erip
erip_queued = refl

accept_erip-IsAdmitted_example :
    QueuesOnly
      (IsAdmitted signs true
        (codes "1")
        (some (codes "e"))
        (some (codes "{}"))
        (some [])
        (some (codes "Basic 7:s")))
      (accept_erip signs true
        (codes "1")
        (some (codes "e"))
        (some (codes "{}"))
        (some [])
        (some (codes "Basic 7:s")))
accept_erip-IsAdmitted_example =
    accept_erip-IsAdmitted signs true (codes "1") (some (codes "e")) (some (codes "{}")) (some [])
      (some (codes "Basic 7:s"))
