-- ===== src/Host/Tests.antt =====
-- `extract_host` at two IPv6 addresses.
use noxy.Common.{Option, some, none, []}
use noxy.Http.{Bytes, text, Uri, Request}

abbrev to_host : Bytes → Request
to_host host = record {
  method = text "GET";
  uri = record { scheme = none; authority = some host; path = text "/"; query = none };
  headers = [];
  target = none;
  body = [];
}

abbrev authority_host : Uri → Option Bytes
authority_host uri = uri.authority
