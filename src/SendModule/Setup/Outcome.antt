-- ===== src/SendModule/Setup/Outcome.antt =====
-- What minit and mexit of model/send_module/main.c return and leave held, by the first call that the
-- kernel refuses.
use kernel_test.Base.{Bool, true, false, not, ◌&&◌, ◌||◌, Option, none, some, ◌>>=◌, if◌then◌else◌}
use kernel_test.KernelHash.Setup.{Status, success, enomem, is_live, is_negative}
use kernel_test.SendModule.Setup.{SendKernel, SendSetup, send_mexit}

-- Which parts of the module are held.
pub record SendHeld : Type 0 where
  pub slabs : Bool
  pub table : Bool
  pub timers_memory : Bool
  pub hook : Bool
  pub pool : Bool

abbrev pub send_held : SendSetup → SendHeld
send_held m = record {
  slabs = is_live m.sha_data || is_live m.replace_data || is_live m.mtu_data;
  table = is_live m.hash_tab || is_live m.hash_cachep || m.timers;
  timers_memory = is_live m.bucket_clear;
  hook = m.nf_out;
  pool = is_live m.sha1sig_pool;
}

abbrev pub send_nothing : SendHeld
send_nothing = record {
  slabs = false;
  table = false;
  timers_memory = false;
  hook = false;
  pool = false;
}

abbrev pub send_all : SendHeld
send_all = record { slabs = true; table = true; timers_memory = true; hook = true; pool = true }

-- What minit returns and leaves held, and what is held after mexit, which runs if minit returned 0.
abbrev pub send_seen : Option (Status × SendSetup) → Option ((Status × SendHeld) × Option SendHeld)
send_seen o = o >>= λ r. some (
  (r.0, send_held r.1),
  if is_negative r.0 then some (send_held r.1) else (send_mexit r.1 >>= λ m. some (send_held m)),
)

abbrev pub send_outcome : SendKernel → Option ((Status × SendHeld) × Option SendHeld)
send_outcome k =
    if not (k.sha_data_made && (k.replace_data_made && k.mtu_data_made))
    then some ((enomem, send_nothing), some send_nothing)
    else if not (k.hash_tab_made && (k.bucket_clear_made && (k.hash_cachep_made && k.nf_out_taken)))
    then none
    else if not k.pool_made
    then some ((success, record send_nothing { timers_memory = true }), none)
    else some ((success, send_all), some (record send_nothing { timers_memory = true }))
