-- ===== src/Jar/Served.antt =====
-- A round trip of tlsHTTP.do and the file of its cookie jar.
use brainapi_go_sdk.Prelude.{
  ◌∷◌, is_empty, some, ◌∙◌, ap, refl, inr, inl, codes, [], ◌≢◌, ◌⊎◌, Option, none, ◌≡◌, ℤ, Text,
}
use brainapi_go_sdk.Jar.{save_jar, snapshot, Files, Disk, CookieLib}
use brainapi_go_sdk.Jar.Wire.{
  answered, cut_off, exchanged, wire_request, saved_behind, not_sent, Exchange, WireRequest, tls_do,
}
use brainapi_go_sdk.Types.{RawRequest}
use brainapi_go_sdk.Runtime.{response, failure, Reply}
use brainapi_go_sdk.Errors.{wrapped, net_wrapped, Error}
use brainapi_go_sdk.Jar.Atomic.{save_jar-Saves, Saves}

-- The reply is the one of the exchange, and a file is as before, or it is the file of the jar and holds
-- the whole snapshot of the jar behind a response.
abbrev pub Serves :
    {S : Type 0}
    → CookieLib S
    → Text
    → Text
    → Text
    → ℤ
    → Files
    → Exchange × S
    → Reply × (S × Files)
    → Type 0
Serves lib path url p now fs (not_sent e, jar) (reply, (jar', fs')) =
    (reply ≡ failure (net_wrapped url e)) × (jar' ≡ jar) × (fs' p ≡ fs p)
Serves lib path url p now fs (cut_off e, jar) (reply, (jar', fs')) =
    (reply ≡ failure (wrapped (codes "brainapi: read body") e)) × (jar' ≡ jar) × (fs' p ≡ fs p)
Serves lib path url p now fs (answered resp, jar) (reply, (jar', fs')) =
    (reply ≡ response resp)
    × (jar' ≡ jar)
    × ((fs' p ≡ fs p)
        ⊎ ((p ≡ path) × (path ≢ []) × (fs' p ≡ lib.marshal (snapshot lib url now jar))))

module _ {S : Type 0} (lib : CookieLib S) (d : Disk) (url p : Text) (now : ℤ) (fs : Files)
    (fresh : fs d.temp ≡ none) where
  saved_file :
      (path : Text) (jar : S) (r : Option Error × Files)
      → Saves lib path p (snapshot lib url now jar) fs r
      → (r.1 p ≡ fs p) ⊎ ((p ≡ path) × (r.1 p ≡ lib.marshal (snapshot lib url now jar)))
  saved_file path jar (none, fs') (whole, inl e) = inr (e, ap fs' e ∙ whole)
  saved_file path jar (none, fs') (whole, inr e) = inl e
  saved_file path jar (some x, fs') e = inl e

  -- Behind a response.
  behind :
      (path : Text) (jar : S)
      → (saved_behind lib d path url now jar fs p ≡ fs p)
        ⊎ ((p ≡ path)
            × (path ≢ [])
            × (saved_behind lib d path url now jar fs p ≡ lib.marshal (snapshot lib url now jar)))
  unfolding is_empty
  behind [] jar = inl refl
  behind (c ∷ path) jar =
      elim (saved_file (c ∷ path) jar (save_jar lib d (c ∷ path) url now (some jar) fs)
        (save_jar-Saves lib d (c ∷ path) url p now jar fs fresh)) [
          | inl e ↦ inl e
          | inr (e, whole) ↦ inr (e, (λ n. cc), whole)
        ]

  exchanged-Serves :
      (path : Text) (x : Exchange × S)
      → Serves lib path url p now fs x (exchanged lib d path url now x fs)
  exchanged-Serves path (not_sent e, jar) = (refl, refl, refl)
  exchanged-Serves path (cut_off e, jar) = (refl, refl, refl)
  exchanged-Serves path (answered resp, jar) = (refl, refl, behind path jar)

-- Whatever becomes of the file of the cookie jar, a round trip of tlsHTTP.do gives the reply, or
-- the wrapped error, and the jar of the exchange. An exchange that fails changes no file; behind a
-- response each file is as before, or it is the file of a jar with a path and holds the whole
-- snapshot of the jar after the exchange, where the name of the temporary file is new and
-- os.Remove succeeds.
pub tls_do-Serves :
    {S : Type 0} (lib : CookieLib S) (round_trip : WireRequest → S → Exchange × S) (d : Disk)
    (path url p : Text) (now : ℤ) (r : RawRequest) (jar : S) (fs : Files)
    → fs d.temp ≡ none
    → Serves lib path url p now fs
        (round_trip (wire_request r) jar)
        (tls_do lib round_trip d path url now r jar fs)
unfolding tls_do
tls_do-Serves lib round_trip d path url p now r jar fs fresh =
    exchanged-Serves lib d url p now fs fresh path (round_trip (wire_request r) jar)
