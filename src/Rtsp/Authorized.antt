-- ===== src/Rtsp/Authorized.antt =====
-- The answer of the session to a challenge, as a server reads it.
use clibmedia_transfer_proto.Common.{
  ℕ, suc, ◌≡◌, refl, sym, ap, ◌∙◌, false, some, List, [], ◌∷◌, ◌++◌, ltb, le→ltb, All, length,
  append_assoc, arith,
}
use clibmedia_transfer_proto.ByteIo.{Bytes}
use clibmedia_transfer_proto.Http.Text.{text, text_eq, atoi}
use clibmedia_transfer_proto.Http.Message.{decimal}
use clibmedia_transfer_proto.RtcSdp.Prefixes.{Without, is_without, is_without-Without}
use clibmedia_transfer_proto.Rtsp.Requests.{
  Dialogue, is_empty, build_authorization, send_describe, next_cseq, set_stream_url, rtsp_version,
  cseq_line, user_agent_line,
}
use clibmedia_transfer_proto.Rtsp.Answers.{
  is_401, third_line, challenge, describe_public, callback, on_text,
}
use clibmedia_transfer_proto.Rtsp.Lines.{join, Splits}

-- What RFC 2617 has a client answer that knows a password.
abbrev digest_of : (Bytes → Bytes) → Bytes → Bytes → Bytes → Bytes → Bytes → Bytes → Bytes
digest_of md5 user realm password nonce method uri = md5 (
    join b':' (
      md5 (join b':' (user ∷ realm ∷ password ∷ []))
      ∷ nonce
      ∷ md5 (join b':' (method ∷ uri ∷ []))
      ∷ []))

-- A server reads what stands between the quotes of a line, and accepts the line for a method on a
-- URI if it names the user, the realm, the nonce and the URI, and has the answer for them.
abbrev pub Accepts :
    (ℕ → Bytes → List Bytes)
    → (Bytes → Bytes)
    → Bytes
    → Bytes
    → Bytes
    → Bytes
    → Bytes
    → Bytes
    → Bytes
    → Type 0
Accepts split md5 user realm password nonce method uri line =
    split b'"' line
    ≡ text "Authorization: Digest username="
      ∷ user
      ∷ text ", realm="
      ∷ realm
      ∷ text ", nonce="
      ∷ nonce
      ∷ text ", uri="
      ∷ uri
      ∷ text ", response="
      ∷ digest_of md5 user realm password nonce method uri
      ∷ []
      ∷ []

describe_line :
    (s : Dialogue)
    → s.stream_url ≡ (set_stream_url s).stream_url
    → text "DESCRIBE rtsp://"
        ++ (s.hostname ++ (text ":" ++ (decimal s.port ++ (s.url_params ++ rtsp_version))))
      ≡ text "DESCRIBE " ++ (s.stream_url ++ rtsp_version)
unfolding set_stream_url
describe_line s e =
    let v = rtsp_version in
    ap (λ x. text "DESCRIBE rtsp://" ++ x)
      (sym (
        append_assoc s.hostname (text ":" ++ (decimal s.port ++ s.url_params)) v
        ∙ ap (λ x. s.hostname ++ (b':' ∷ x)) (append_assoc (decimal s.port) s.url_params v)))
    ∙ ap (λ x. text "DESCRIBE " ++ (x ++ v)) (sym e)

module _ (split : ℕ → Bytes → List Bytes) (splits : Splits split) (md5 : Bytes → Bytes)
    (printed : (bytes : Bytes) → Without b'"' (md5 bytes)) where
  build_authorization-Accepts :
      (method : Bytes) (s : Dialogue)
      → is_empty s.realm ≡ false
      → Without b'"' s.user_name
      → Without b'"' s.realm
      → Without b'"' s.nonce
      → Without b'"' s.stream_url
      → (s' : Dialogue) × (line : Bytes) × (build_authorization md5 method s ≡ (s', line ∷ []))
        × Accepts split md5 s.user_name s.realm s.password s.nonce method s.stream_url line
  unfolding build_authorization is_without
  build_authorization-Accepts method s e u r n l =
      let without = is_without-Without b'"' in
      rw (build_authorization, e)
        (
          _,
          _,
          refl,
          splits b'"' (text "Authorization: Digest username=")
              (s.user_name
                ∷ text ", realm="
                ∷ s.realm
                ∷ text ", nonce="
                ∷ s.nonce
                ∷ text ", uri="
                ∷ s.stream_url
                ∷ text ", response="
                ∷ digest_of md5 s.user_name s.realm s.password s.nonce method s.stream_url
                ∷ []
                ∷ [])
              (
                without (text "Authorization: Digest username=") refl,
                (
                  u,
                  (
                    without (text ", realm=") refl,
                    (
                      r,
                      (
                        without (text ", nonce=") refl,
                        (
                          n,
                          (
                            without (text ", uri=") refl,
                            (l, (without (text ", response=") refl, (printed _, (tt, tt)))),
                          ),
                        ),
                      ),
                    ),
                  ),
                ),
              ),
        )

  -- To an answer with the status 401 whose third line is a challenge with a realm and a nonce, all of
  -- it split as `rtc::split` does, a session whose URL is that of its address answers with DESCRIBE
  -- for that URL, with the next CSeq and a third line that a server accepts that knows the password.
  pub on_text-Accepts :
      (tokenize : ℕ → Bytes → List Bytes) (data' version second scheme realm between nonce : Bytes)
      (others rest more stale : List Bytes) (s : Dialogue)
      → let value = join b'"' (scheme ∷ realm ∷ between ∷ nonce ∷ stale) in
        tokenize 10 data'
          ≡ join b' ' (version ∷ text "401" ∷ others)
            ∷ second
            ∷ join b':' (text "WWW-Authenticate" ∷ value ∷ more)
            ∷ rest
        → All (Without b' ') (version ∷ text "401" ∷ others)
        → All (Without b':') (text "WWW-Authenticate" ∷ value ∷ more)
        → All (Without b'"') (scheme ∷ realm ∷ between ∷ nonce ∷ stale)
        → is_empty realm ≡ false
        → Without b'"' s.user_name
        → Without b'"' s.stream_url
        → s.stream_url ≡ (set_stream_url s).stream_url
        → (s' : Dialogue) × (line : Bytes) × (lines : List Bytes) × (on_text split md5 tokenize
              data' s
            ≡ some (
              s',
              ((text "DESCRIBE " ++ (s.stream_url ++ text " RTSP/1.0"))
                    ∷ (text "CSeq: " ++ decimal (suc s.cseq))
                    ∷ line
                    ∷ lines)
                  ∷ [],
            ))
          × Accepts split md5 s.user_name realm s.password nonce (text "DESCRIBE") s.stream_url line
  unfolding on_text third_line challenge describe_public callback send_describe is_401 atoi text_eq
      set_stream_url
  on_text-Accepts tokenize data' version second scheme realm between nonce others rest more stale s
        lines spaces colons quotes e u l url =
      let status : split b' ' (join b' ' (version ∷ text "401" ∷ others))
          ≡ version ∷ text "401" ∷ others =
        splits b' ' version (text "401" ∷ others) spaces in
      let value = join b'"' (scheme ∷ realm ∷ between ∷ nonce ∷ stale) in
      let third : split b':' (join b':' (text "WWW-Authenticate" ∷ value ∷ more))
          ≡ text "WWW-Authenticate" ∷ value ∷ more =
        splits b':' (text "WWW-Authenticate") (value ∷ more) colons in
      let fields : split b'"' value ≡ scheme ∷ realm ∷ between ∷ nonce ∷ stale =
        splits b'"' scheme (realm ∷ between ∷ nonce ∷ stale) quotes in
      let (_, (r, (_, (n, _)))) = quotes in
      let enough : ltb
            (length (
              join b' ' (version ∷ text "401" ∷ others)
              ∷ second
              ∷ join b':' (text "WWW-Authenticate" ∷ value ∷ more)
              ∷ rest))
            3
          ≡ false =
        le→ltb _ 3 (omega arith) in
      let s1 : Dialogue = record (next_cseq s) { realm = realm; nonce = nonce } in
      let (s', line, built, accepted) =
        build_authorization-Accepts (text "DESCRIBE") s1 e u r n l in
      rw (on_text, lines, status, lines, enough, third_line, third, challenge, fields, built)
        (
          s',
          line,
          _,
          ap
              (λ x. some (
                s',
                (x
                      ∷ cseq_line (next_cseq s)
                      ∷ line
                      ∷ user_agent_line
                      ∷ text "Accept: application/sdp"
                      ∷ [])
                    ∷ [],
              ))
              (describe_line s url),
          accepted,
        )
