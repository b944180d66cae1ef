-- ===== src/SharedPages/Key.antt =====
-- `shm_page_get` of kernel/mm/shm.c: a key names one page.
