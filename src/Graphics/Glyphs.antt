-- ===== src/Graphics/Glyphs.antt =====
-- The glyphs of the digits and the letters (src/graphics.h).
use mono.Prelude.{ℕ}

abbrev pub n_0 : ℕ
n_0 = 0xfe6b3f80

abbrev pub n_1 : ℕ
n_1 = 0x21084200

abbrev pub n_2 : ℕ
n_2 = 0xf87f0f80

abbrev pub n_3 : ℕ
n_3 = 0xf87e1f80

abbrev pub n_4 : ℕ
n_4 = 0x8c7e1080

abbrev pub n_5 : ℕ
n_5 = 0xfc3e1f80

abbrev pub n_6 : ℕ
n_6 = 0xfc3f1f80

abbrev pub n_7 : ℕ
n_7 = 0xf8888800

abbrev pub n_8 : ℕ
n_8 = 0xfc7f1f80

abbrev pub n_9 : ℕ
n_9 = 0xfc7e1080

abbrev pub l_a : ℕ
l_a = 0xfc7f1880

abbrev pub l_b : ℕ
l_b = 0xf4bf1f80

abbrev pub l_c : ℕ
l_c = 0xfc611f80

abbrev pub l_d : ℕ
l_d = 0xe4a32e00

abbrev pub l_e : ℕ
l_e = 0xfc3f0f80

abbrev pub l_f : ℕ
l_f = 0xfc3f0800

abbrev pub l_g : ℕ
l_g = 0xfc271f80

abbrev pub l_h : ℕ
l_h = 0x8c7f1880

abbrev pub l_i : ℕ
l_i = 0xf9084f80

abbrev pub l_j : ℕ
l_j = 0xf8421f00

abbrev pub l_k : ℕ
l_k = 0x8ca92880

abbrev pub l_l : ℕ
l_l = 0x84210f80

abbrev pub l_m : ℕ
l_m = 0xfd6b5a80

abbrev pub l_n : ℕ
l_n = 0x8e6b3880

abbrev pub l_o : ℕ
l_o = 0xfc631f80

abbrev pub l_p : ℕ
l_p = 0xfc7f0800

abbrev pub l_q : ℕ
l_q = 0xfc63f080

abbrev pub l_r : ℕ
l_r = 0xfc7f6980

abbrev pub l_s : ℕ
l_s = 0xfc3e1f80

abbrev pub l_t : ℕ
l_t = 0xf9084200

abbrev pub l_u : ℕ
l_u = 0x8c631f80

abbrev pub l_v : ℕ
l_v = 0x8c62a200

abbrev pub l_w : ℕ
l_w = 0xad6b5f80

abbrev pub l_y : ℕ
l_y = 0x8a884200

abbrev pub l_x : ℕ
l_x = 0x8a88a880

abbrev pub l_z : ℕ
l_z = 0xf8888f80
