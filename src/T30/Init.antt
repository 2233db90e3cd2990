-- ===== src/T30/Init.antt =====
-- `nf_t30_init` of nf_t30.c.
use nospandsp_fax.Common.{Bool, false, none}
use nospandsp_fax.Common.{[], replicate}
use nospandsp_fax.T4.Encode.{two_d, one_d}
use nospandsp_fax.T30.Tables.{no_modem, standard}
use nospandsp_fax.T30.State.{T30, Config, ok, st_init, bilevel}
use nospandsp_fax.T30.EcmReceive.{no_slots}

-- `nf_t30_init` with the settings of the application; all else is 0.
unfoldable pub t30_init : Config → Bool → T30
t30_init config want_ecm = record {
  config = config;
  substate = st_init;
  finished = false;
  result = ok;
  far_ident = [];
  far_dis = [];
  dis_received = false;
  cburst = none;
  neg = record {
    fallback = 0;
    modem = no_modem;
    bit_rate = 0;
    encoding = two_d;
    x_res = 0;
    y_res = 0;
    image_width = 0;
    nf_res = standard;
    kind = bilevel;
    ecm = false;
  };
  doc = record { pages_total = 0; cur_page = 0; enc = []; enc_bit = 0; last_post_fcf = 0 };
  tries = record {
    post_retries = 0;
    dis_retries = 0;
    rtn_count = 0;
    ppr_count = 0;
    ctc_retries = 0;
  };
  v34 = false;
  want_ecm = want_ecm;
  ecm_block = 0;
  ecm_frames = none;
  tx = record {
    at_page_end = false;
    next_tx_step = 0;
    tx_base = 0;
    send = replicate 256 false;
    cursor = 0;
    rcp_left = 0;
    burst = 0;
    dropped_tx = replicate 256 false;
  };
  rx = record {
    slots = no_slots;
    acked = none;
    last_resp_fcf = 0;
    reack_return = st_init;
    last_pps_fcf2 = 0;
    page = [];
    dropped_rx = replicate 256 false;
  };
  recv = record {
    tcf_left = 0;
    tcf_zeros = 0;
    tcf_most = 0;
    rx_page_bad = false;
    rx_flip_n = 0;
    rx_flip_ctr = 0;
    rx_bits = [];
    dec_width = 0;
    dec_encoding = one_d;
  };
  stats = record { pages_tx = 0; pages_rx = 0; stat_rate = 0; width = 0; rows = 0 };
  timeout = 0;
  calls = [];
  written = [];
}
