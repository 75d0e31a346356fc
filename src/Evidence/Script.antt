-- ===== src/Evidence/Script.antt =====
-- app/services/evidence.py: `_verify_sh`, the script that every pack holds. It is a text here; the
-- checks that it makes are those of `Verify`.
use truthpage.Prelude.{String, [], join_with, ◌∷◌}

unfoldable pub verify_sh : String
verify_sh = join_with "\n" (
    "#!/bin/sh" ∷ "# TrustPages audit evidence — offline verification. Uses only openssl and"
    ∷ "# the files in this directory; never touches the network." ∷ "set -e"
    ∷ "cd \"$(dirname \"$0\")\"" ∷ ""
    ∷ "field() { grep \"^$1:\" manifest.txt | sed \"s/^$1: *//\"; }" ∷ ""
    ∷ "AFTER_FILE=$(field after_html_file)" ∷ "EXPECTED_HASH=$(field after_sha256)"
    ∷ "STATUS=$(field timestamp_status)" ∷ ""
    ∷ "if [ -z \"$AFTER_FILE\" ] || [ ! -f \"$AFTER_FILE\" ]; then"
    ∷ "    echo \"FAIL - manifest.txt does not name a captured HTML file present here\""
    ∷ "    exit 1" ∷ "fi"
    ∷ "if [ -z \"$EXPECTED_HASH\" ] || [ \"$EXPECTED_HASH\" = \"not_available\" ]; then"
    ∷ "    echo \"FAIL - manifest.txt has no content hash to verify against\"" ∷ "    exit 1" ∷ "fi"
    ∷ "" ∷ "ACTUAL_HASH=$(openssl dgst -sha256 -r \"$AFTER_FILE\" | cut -d' ' -f1)"
    ∷ "if [ \"$ACTUAL_HASH\" != \"$EXPECTED_HASH\" ]; then"
    ∷ "    echo \"FAIL - content hash mismatch: $AFTER_FILE has changed since this pack was generated\""
    ∷ "    exit 1" ∷ "fi" ∷ "" ∷ "if [ \"$STATUS\" != \"timestamped\" ]; then"
    ∷ "    echo \"NO TIMESTAMP - pack predates independent timestamping; content hash matches\""
    ∷ "    exit 0" ∷ "fi" ∷ "" ∷ "TOKEN_FILE=$(field tsa_token_file)"
    ∷ "CHAIN_FILE=$(field tsa_chain_file)" ∷ "TSA_TIME=$(field tsa_time_utc)" ∷ ""
    ∷ "if [ ! -f \"$TOKEN_FILE\" ] || [ ! -f \"$CHAIN_FILE\" ]; then"
    ∷ "    echo \"FAIL - timestamp_status says timestamped but the token or CA chain file is missing\""
    ∷ "    exit 1" ∷ "fi" ∷ ""
    ∷ "# -no_check_time: a token issued years ago must still verify after its"
    ∷ "# signing certificate's own validity window has since passed — the token"
    ∷ "# attests the digest existed AT THE TIME IT WAS ISSUED, which does not"
    ∷ "# expire just because the certificate that made the attestation later"
    ∷ "# did. Without this flag, every pack in this product would eventually stop"
    ∷ "# verifying as its TSA's certificate ages past its notAfter date."
    ∷ "if openssl ts -verify -in \"$TOKEN_FILE\" -digest \"$EXPECTED_HASH\" -CAfile \"$CHAIN_FILE\" -no_check_time >/dev/null 2>&1; then"
    ∷ "    # The chain file is the TSA's root CA followed by its own signing"
    ∷ "    # cert (see certs/tsa/README.md) — the LAST certificate in the file is"
    ∷ "    # the one whose validity window is actually informative here."
    ∷ "    LAST_CERT=$(awk '/-----BEGIN CERTIFICATE-----/{c=\"\"} {c=c $0 \"\\n\"} /-----END CERTIFICATE-----/{last=c} END{printf \"%s\", last}' \"$CHAIN_FILE\")"
    ∷ "    # openssl x509 -dates prints two lines (notBefore=..., notAfter=...);"
    ∷ "    # joined into one with sed's N/ba loop rather than tr, which can only"
    ∷ "    # ever map one character to one character, never a newline to \"; \"."
    ∷ "    CERT_WINDOW=$(printf '%s' \"$LAST_CERT\" | openssl x509 -noout -dates 2>/dev/null | sed -e :a -e N -e '$!ba' -e 's/\\n/; /g')"
    ∷ "    echo \"PASS - content hash matches and timestamp verified ($TSA_TIME); TSA cert $CERT_WINDOW\""
    ∷ "    exit 0" ∷ "else" ∷ "    echo \"FAIL - RFC 3161 timestamp verification failed\""
    ∷ "    exit 1" ∷ "fi" ∷ "" ∷ [])
