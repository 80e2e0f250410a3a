-- ===== src/Packet/ConnType.antt =====
-- `rasta_conn_type` holds any 16-bit value that a peer sends; these are the named ones
-- (src/c/util/rastamodule.h).
use librasta.Base.{ℕ}

abbrev pub connreq : ℕ
connreq = 6200

abbrev pub connresp : ℕ
connresp = 6201

abbrev pub retrreq : ℕ
retrreq = 6212

abbrev pub retrresp : ℕ
retrresp = 6213

abbrev pub discreq : ℕ
discreq = 6216

abbrev pub hb : ℕ
hb = 6220

abbrev pub data_message : ℕ
data_message = 6240

abbrev pub retrdata : ℕ
retrdata = 6241
