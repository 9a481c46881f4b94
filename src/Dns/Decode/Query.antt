-- ===== src/Dns/Decode/Query.antt =====
-- A packet that holds a query, through `dns_msg_decode` of src/dns_proto.c.
use c_dns_pkt.Prelude.{
  ℕ, ◌+◌, ◌<◌, ◌≡◌, refl, true, false, List, [], ◌∷◌, ◌++◌, length, ok, ltb, none, pos, arith,
}
use c_dns_pkt.Mem.{Bytes, splice}
use c_dns_pkt.Dns.Header.{dns_hdr_reset, dns_hdr_decode}
use c_dns_pkt.Dns.Message.{Stored, Msg, dns_msg_reset}
use c_dns_pkt.Dns.Encode.Built.{query_hdr, query_msg}
use c_dns_pkt.Dns.Decode.{Input, World, call, ◌>>=◌, ◌>>◌, dns_dec_err, fail_with}
use c_dns_pkt.Dns.Decode.Report.{dns_pdu, dns_hdr, dns_qd, dns_ec_isrow}
use c_dns_pkt.Dns.{dns_ehdrlen}
use c_dns_pkt.Dns.Decode.Record.{
  or_row, sect_rows, dns_sect_decode, decode_an, decode_ns, decode_ar,
}
use c_dns_pkt.Dns.Decode.Message.{
  qd_rows, decode_qd, decode_hdr, passed, return_nonzero, decode_msg, dns_msg_decode, dec_start,
}

-- The message that is loaded.
abbrev pub loaded : ℕ → ℕ → Bytes → ℕ → ℕ → Msg
loaded id flags text qtype qclass = record (query_msg id flags text qtype qclass) {
  hdr = query_hdr id flags;
}

module _ (pkt : Bytes) (held : (sect_code row : ℕ) → List Stored) where
  abbrev c : Input
  c = record { pkt_buf = pkt; need_emsg = false; load_msg = true; held = held }

  -- The decoder and the message behind the header of a query.
  abbrev behind : ℕ → ℕ → World
  behind id flags = record {
    dec = record (dec_start none) { offset = 12 };
    msg = record { hdr = query_hdr id flags; names = []; qd = []; an = []; ns = []; ar = [] };
  }

  -- What is left of a query: the text in the scratch buffer, and the row that is noted.
  abbrev left : ℕ → ℕ → Bytes → ℕ → ℕ → ℕ → World
  left id flags text qtype qclass mid = record {
    dec = record (dec_start none) {
      offset = mid + 4;
      msg = splice 0 (text ++ 0 ∷ []) (dec_start none).msg;
    };
    msg = loaded id flags text qtype qclass;
  }

  -- The row of the question is noted as an error, since the code for it is not 0.
  abbrev noted : World → World
  noted w = record w {
    dec = record (w.dec) {
      errs = record { group = dns_pdu; field = dns_qd; ec = pos (0 + dns_ec_isrow) } ∷ w.dec.errs;
    };
  }

-- A packet that is shorter than a header is taken for an empty message: `dns_msg_decode` returns 0,
-- and leaves no questions and no records. The one error on the list of the decoder, which its caller
-- does not see, says so.
pub dns_msg_decode-short :
    (msg : Msg) (pkt : Bytes) (held : (sect_code row : ℕ) → List Stored)
    → length pkt < 12
    → (w : World) × (dns_msg_decode msg pkt held ≡ ok (w, pos 0))
      × (w.msg ≡ dns_msg_reset msg)
      × (w.dec.errs ≡ record { group = dns_pdu; field = dns_hdr; ec = pos dns_ehdrlen } ∷ [])
unfolding dns_msg_decode decode_msg passed return_nonzero call decode_hdr decode_qd qd_rows or_row
    fail_with dns_dec_err decode_an decode_ns decode_ar dns_sect_decode sect_rows dns_msg_reset
    dns_hdr_reset dns_hdr_decode ◌>>=◌ ◌>>◌
dns_msg_decode-short msg pkt held h =
    let short : ltb (length pkt) 12 ≡ true = ground arith in
    (
      record {
        dec = record (dec_start none) {
          errs = record { group = dns_pdu; field = dns_hdr; ec = pos dns_ehdrlen } ∷ [];
        };
        msg = dns_msg_reset msg;
      },
      rw short refl,
      refl,
      refl,
    )
