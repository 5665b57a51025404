-- ===== src/Tests/SendSetup.antt =====
-- A run of the entry and the exit of model/send_module/main.c whose pool of digests is refused.
use kernel_test.Base.{true, false}
use kernel_test.SendModule.Setup.{SendKernel}

abbrev no_pool : SendKernel
no_pool = record {
  sha_data_made = true;
  replace_data_made = true;
  mtu_data_made = true;
  hash_tab_made = true;
  bucket_clear_made = true;
  hash_cachep_made = true;
  nf_out_taken = true;
  pool_made = false;
  sizeof_timer_list = 80;
}
